-- ===== src/CString/Decimal.antt =====
-- Printing a number and reading it again: "%d", is_a_number and atoi.
use ops_intfd.Prelude.{
  ℕ, zero, suc, ◌+◌, ◌-◌, ◌*◌, ◌/◌, ◌%◌, ◌^◌, ◌<◌, ◌≡◌, ◌≢◌, refl, ◌∙◌, true, [], ◌∷◌, ◌++◌, arith,
  All, Bool-cases, inl, inr, ltb,
}
use ops_intfd.CString.{
  CString, is_digit, is_a_number, scan_digits, scan_sign, skip_space, atoi_bits, int_of_bits,
  decimal_fuel, print_int,
}

abbrev pub AreDigits : CString → Type 0
AreDigits = All (λ c. is_digit c ≡ true)

append-AreDigits : (s t : CString) → AreDigits s → AreDigits t → AreDigits (s ++ t)
append-AreDigits [] t hs ht = ht
append-AreDigits (c ∷ s) t (h, hs) ht = (h, append-AreDigits s t hs ht)

digit-is_digit : (d : ℕ) → d < 10 → is_digit (48 + d) ≡ true
digit-is_digit d h = ground arith

decimal-AreDigits : (f n : ℕ) → AreDigits (decimal_fuel f n)
unfolding decimal_fuel
decimal-AreDigits zero n = tt
decimal-AreDigits (suc f) n = elim (Bool-cases (ltb n 10)) [
  | inl e ↦ rw e (digit-is_digit n (ground arith), tt)
  | inr e ↦ rw e (
      append-AreDigits (decimal_fuel f (n / 10)) _ (decimal-AreDigits f (n / 10))
        (digit-is_digit (n % 10) (omega arith), tt))
]

scan_digits-snoc :
    (a : ℕ) (s : CString) (d : ℕ)
    → AreDigits s
    → d < 10
    → scan_digits a (s ++ (48 + d) ∷ []) ≡ scan_digits a s * 10 + d
unfolding scan_digits
scan_digits-snoc a [] d h l = ground arith
scan_digits-snoc a (c ∷ s) d (h, hs) l = rw h (scan_digits-snoc (a * 10 + (c - 48)) s d hs l)

scan_nil : scan_digits 0 [] ≡ 0
unfolding scan_digits
scan_nil = refl

-- The digits printed with enough fuel are those of the number.
pub scan-decimal : (f n : ℕ) → n < 10 ^ f → scan_digits 0 (decimal_fuel f n) ≡ n
unfolding decimal_fuel
scan-decimal zero n h = scan_nil ∙ omega arith
scan-decimal (suc f) n h = elim (Bool-cases (ltb n 10)) [
  | inl e ↦ rw e (scan_digits-snoc 0 [] n tt (ground arith) ∙ rw scan_nil (omega arith))
  | inr e ↦
      rw
        (
          e,
          scan_digits-snoc 0 (decimal_fuel f (n / 10)) (n % 10) (decimal-AreDigits f (n / 10))
              (omega arith),
          scan-decimal f (n / 10) (omega arith),
        )
        (omega arith)
]

pub AreDigits-is_a_number : (s : CString) → AreDigits s → is_a_number s ≡ true
unfolding is_a_number
AreDigits-is_a_number [] h = refl
AreDigits-is_a_number (c ∷ s) (h, hs) = rw h (AreDigits-is_a_number s hs)

atoi-digits : (s : CString) → AreDigits s → scan_digits 0 s < 2 ^ 31 → atoi_bits s ≡ scan_digits 0 s
unfolding atoi_bits scan_sign skip_space scan_digits
atoi-digits [] h l = refl
atoi-digits (c ∷ s) (h, hs) l = ground arith

-- A uint32_t that is an int, as "%d" prints it.
abbrev pub text : ℕ → CString
text n = print_int (int_of_bits n)

pub text-eq : (n : ℕ) → n < 2 ^ 31 → text n ≡ decimal_fuel 10 n
unfolding print_int int_of_bits
text-eq n h = ground arith

pub text-AreDigits : (n : ℕ) → n < 2 ^ 31 → AreDigits (text n)
text-AreDigits n h = rw (text-eq n h) (decimal-AreDigits 10 n)

pub atoi-text : (n : ℕ) → n < 2 ^ 31 → atoi_bits (text n) ≡ n
atoi-text n h = rw (text-eq n h) (
    atoi-digits (decimal_fuel 10 n) (decimal-AreDigits 10 n)
      (rw (scan-decimal 10 n (omega arith)) h)
    ∙ scan-decimal 10 n (omega arith))

append-ne : (s : CString) (c : ℕ) → s ++ c ∷ [] ≢ []
append-ne [] c h = cc
append-ne (d ∷ s) c h = cc

decimal-ne : (f n : ℕ) → decimal_fuel (suc f) n ≢ []
unfolding decimal_fuel
decimal-ne f n = elim (Bool-cases (ltb n 10)) [
  | inl e ↦ rw e (λ h. cc)
  | inr e ↦ rw e (append-ne (decimal_fuel f (n / 10)) (48 + n % 10))
]

pub text-ne : (n : ℕ) → n < 2 ^ 31 → text n ≢ []
text-ne n h = rw (text-eq n h) (decimal-ne 9 n)

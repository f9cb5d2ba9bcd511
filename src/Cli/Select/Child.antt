-- ===== src/Cli/Select/Child.antt =====
-- The check of the name of a split child in vtysh_interface of src/cli/intf_vty.c: the parent whose number
-- stands before the dash.
use ops_intfd.Prelude.{
  suc, ◌/◌, ltb, length, if◌then◌else◌, ℕ, ◌+◌, ◌%◌, ◌^◌, ◌<◌, ◌≤◌, ◌≡◌, refl, ap, ◌∙◌, true, false,
  none, some, List, [], ◌∷◌, ◌++◌, ◌≢◌, ◌*◌, ◌-◌, arith, All, Bool-cases, inl, inr, ◌>>=◌,
}
use ops_intfd.CString.{
  decimal_fuel, CString, bytes, is_digit, scan_digits, skip_space, strcmp_is_zero, strncmp_is_zero,
}
use ops_intfd.CString.Equality.{strcmp_sound}
use ops_intfd.CString.Decimal.{AreDigits, text, text-eq, scan-decimal, text-AreDigits, text-ne}
use ops_intfd.Schema.{Idl}
use ops_intfd.Database.{Ifrow}
use ops_intfd.Cli.{is_parent_interface_split}
use ops_intfd.Cli.Names.{has_char, after_digits, scan_number, ulong_bits}
use ops_intfd.Cli.Select.{read_parent_number, print_parent_name, has_unsplit, is_child_of_unsplit}

-- The name of a child: the number of its parent, a dash, and more.
abbrev pub child : ℕ → CString → CString
child p suffix = text p ++ b'-' ∷ suffix

scan_digits-dash :
    (n : ℕ) (s suffix : CString)
    → AreDigits s
    → scan_digits n (s ++ b'-' ∷ suffix) ≡ scan_digits n s
unfolding scan_digits
scan_digits-dash n [] suffix h = refl
scan_digits-dash n (c ∷ s) suffix (h, hs) = rw h (scan_digits-dash (n * 10 + (c - 48)) s suffix hs)

after_digits-dash :
    (s suffix : CString) → AreDigits s → after_digits (s ++ b'-' ∷ suffix) ≡ b'-' ∷ suffix
unfolding after_digits
after_digits-dash [] suffix h = refl
after_digits-dash (c ∷ s) suffix (h, hs) = rw h (after_digits-dash s suffix hs)

has_char-dash : (s suffix : CString) → has_char b'-' (s ++ b'-' ∷ suffix) ≡ true
unfolding has_char
has_char-dash [] suffix = refl
has_char-dash (c ∷ s) suffix = ground (arith, has_char-dash s suffix)

scan_number-digit :
    (c : ℕ) (s : CString)
    → is_digit c ≡ true
    → scan_number (c ∷ s) ≡ some (false, scan_digits 0 (c ∷ s), after_digits (c ∷ s))
unfolding scan_number skip_space
scan_number-digit c s h = ground arith

scan_number-dash :
    (s suffix : CString)
    → AreDigits s
    → s ≢ []
    → scan_number (s ++ b'-' ∷ suffix) ≡ some (false, scan_digits 0 s, b'-' ∷ suffix)
scan_number-dash [] suffix h ne = absurd (ne refl)
scan_number-dash (c ∷ s) suffix h ne =
    scan_number-digit c (s ++ b'-' ∷ suffix) h.0
    ∙ rw (scan_digits-dash 0 (c ∷ s) suffix h, after_digits-dash (c ∷ s) suffix h) refl

read_parent_number-scan :
    (unread n : ℕ) (name rest : CString)
    → scan_number name ≡ some (false, n, rest)
    → read_parent_number unread name ≡ ulong_bits false n % 2 ^ 32
unfolding read_parent_number
read_parent_number-scan unread n name rest h = rw (h, read_parent_number) refl

small_bits : (n : ℕ) → n < 2 ^ 31 → ulong_bits false n % 2 ^ 32 ≡ n
small_bits n h = omega arith

scan_number-text :
    (p : ℕ) (suffix : CString)
    → p < 2 ^ 31
    → scan_number (child p suffix) ≡ some (false, p, b'-' ∷ suffix)
scan_number-text p suffix h =
    scan_number-dash (text p) suffix (text-AreDigits p h) (text-ne p h)
    ∙ ap (λ (n : ℕ). some (false, n, b'-' ∷ suffix))
        (ap (scan_digits 0) (text-eq p h) ∙ scan-decimal 10 p (omega arith))

read_parent_number-child :
    (unread p : ℕ) (suffix : CString) → p < 2 ^ 31 → read_parent_number unread (child p suffix) ≡ p
read_parent_number-child unread p suffix h =
    read_parent_number-scan unread p (child p suffix) (b'-' ∷ suffix) (scan_number-text p suffix h)
    ∙ small_bits p h

-- The name starts with a digit, so that it is none of the names that are refused first.
digit-differs :
    (c : ℕ) (s : CString)
    → is_digit c ≡ true
    → (strcmp_is_zero (c ∷ s) (bytes "bridge_normal") ≡ false)
      × (strncmp_is_zero (c ∷ s) (bytes "lag") 3 ≡ false)
unfolding strcmp_is_zero strncmp_is_zero
digit-differs c s h = (ground arith, ground arith)

pub digits-differ :
    (s suffix : CString)
    → AreDigits s
    → s ≢ []
    → (strcmp_is_zero (s ++ suffix) (bytes "bridge_normal") ≡ false)
      × (strncmp_is_zero (s ++ suffix) (bytes "lag") 3 ≡ false)
digits-differ [] suffix h ne = absurd (ne refl)
digits-differ (c ∷ s) suffix h ne = digit-differs c (s ++ suffix) h.0

shorter : (a b : ℕ) → a < b → ltb a b ≡ true
shorter a b h = ground arith

longer : (a b : ℕ) → b ≤ a → ltb a b ≡ false
longer a b h = ground arith

length-snoc : (s : CString) (c : ℕ) → length (s ++ c ∷ []) ≡ length s + 1
length-snoc [] c = omega arith
length-snoc (d ∷ s) c = omega (arith, length-snoc s c)

length-decimal :
    (f n : ℕ)
    → length (decimal_fuel (suc f) n)
      ≡ (if ltb n 10 then 1 else length (decimal_fuel f (n / 10)) + 1)
unfolding decimal_fuel
length-decimal f n = elim (Bool-cases (ltb n 10)) [
  | inl e ↦ rw e refl
  | inr e ↦ rw (e, length-snoc (decimal_fuel f (n / 10)) (b'0' + n % 10)) refl
]

-- A number below 10000 has at most four digits, and any other at least five.
length-decimal_small : (n : ℕ) → n < 10000 → length (decimal_fuel 10 n) < 5
length-decimal_small n h = ground (
  arith,
  length-decimal 9 n,
  length-decimal 8 (n / 10),
  length-decimal 7 (n / 10 / 10),
  length-decimal 6 (n / 10 / 10 / 10),
)

length-decimal_large : (n : ℕ) → 10000 ≤ n → 5 ≤ length (decimal_fuel 10 n)
length-decimal_large n h = ground (
  arith,
  length-decimal 9 n,
  length-decimal 8 (n / 10),
  length-decimal 7 (n / 10 / 10),
  length-decimal 6 (n / 10 / 10 / 10),
  length-decimal 5 (n / 10 / 10 / 10 / 10),
)

module _ ⦃idl : Idl⦄ where
  pub has_unsplit-append :
      (name : CString) (before after : List Ifrow) (row : Ifrow)
      → strcmp_is_zero row.name name ≡ true
      → is_parent_interface_split row ≡ false
      → has_unsplit name (before ++ row ∷ after) ≡ true
  unfolding has_unsplit
  has_unsplit-append name [] after row same whole = rw (same, whole) refl
  has_unsplit-append name (r ∷ before) after row same whole =
      ground (arith, has_unsplit-append name before after row same whole)

  abbrev pub AllSplit : CString → List Ifrow → Type 0
  AllSplit name = All (λ row. row.name ≡ name → is_parent_interface_split row ≡ true)

  pub has_unsplit-AllSplit :
      (name : CString) (rows : List Ifrow) → AllSplit name rows → has_unsplit name rows ≡ false
  unfolding has_unsplit
  has_unsplit-AllSplit name [] h = refl
  has_unsplit-AllSplit name (row ∷ rows) (h, hs) =
      elim (Bool-cases (strcmp_is_zero row.name name)) [
        | inl same ↦
            rw (same, h (strcmp_sound row.name name same), has_unsplit-AllSplit name rows hs) refl
        | inr other ↦ rw (other, has_unsplit-AllSplit name rows hs) refl
      ]

  is_child_of_unsplit-dash :
      (unread : ℕ) (s suffix : CString) (rows : List Ifrow)
      → is_child_of_unsplit unread (s ++ b'-' ∷ suffix) rows ≡ (
          print_parent_name (read_parent_number unread (s ++ b'-' ∷ suffix)) >>= λ parent.
          some (has_unsplit parent rows))
  unfolding is_child_of_unsplit
  is_child_of_unsplit-dash unread s suffix rows = rw (has_char-dash s suffix) refl

  print_parent_name-small : (p : ℕ) → p < 10000 → print_parent_name p ≡ some (text p)
  unfolding print_parent_name
  print_parent_name-small p h =
      rw (text-eq p (omega arith), shorter _ 5 (length-decimal_small p h)) refl

  print_parent_name-large : (p : ℕ) → 10000 ≤ p → print_parent_name p ≡ none
  unfolding print_parent_name
  print_parent_name-large p h = rw (longer _ 5 (length-decimal_large p h)) refl

  pub is_child_of_unsplit-child :
      (unread p : ℕ) (suffix : CString) (rows : List Ifrow)
      → p < 10000
      → is_child_of_unsplit unread (child p suffix) rows ≡ some (has_unsplit (text p) rows)
  is_child_of_unsplit-child unread p suffix rows h =
      is_child_of_unsplit-dash unread (text p) suffix rows
      ∙ rw (read_parent_number-child unread p suffix (omega arith), print_parent_name-small p h)
          refl

  pub is_child_of_unsplit-large :
      (unread p : ℕ) (suffix : CString) (rows : List Ifrow)
      → 10000 ≤ p
      → p < 2 ^ 31
      → is_child_of_unsplit unread (child p suffix) rows ≡ none
  is_child_of_unsplit-large unread p suffix rows h small =
      is_child_of_unsplit-dash unread (text p) suffix rows
      ∙ rw (read_parent_number-child unread p suffix small, print_parent_name-large p h) refl

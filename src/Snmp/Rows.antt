-- ===== src/Snmp/Rows.antt =====
-- Which rows of the table Interface the tables of src/snmp/ifmib/IF_MIB_custom.c show, and their index.
use ops_intfd.Prelude.{
  ℕ, ◌^◌, ◌≤◌, ◌<◌, pos, true, false, ◌≡◌, refl, sym, ap, [], ◌∷◌, ◌++◌, ◌==◌, arith, Bool-cases,
  inl, inr,
}
use ops_intfd.CString.{CString, is_digit, atoi, int_of_bits, print_int}
use ops_intfd.CString.Decimal.{AreDigits, text, text-AreDigits, atoi-text}
use ops_intfd.Snmp.{
  SnmpRow, strchr, dash, if_table_skip_function, if_x_table_skip_function, if_index,
}

strchr-append : (s k : CString) → strchr (s ++ dash ∷ k) dash ≡ true
unfolding strchr
strchr-append [] k = refl
strchr-append (c ∷ s) k = elim (Bool-cases (c == dash)) [
  | inl e ↦ rw e refl
  | inr e ↦ rw e (strchr-append s k)
]

strchr-AreDigits : (s : CString) → AreDigits s → strchr s dash ≡ false
unfolding strchr
strchr-AreDigits [] h = refl
strchr-AreDigits (c ∷ s) (h, hs) = rw (digit-ne c h) (strchr-AreDigits s hs)
  where
    digit-ne : (c : ℕ) → is_digit c ≡ true → (c == dash) ≡ false
    digit-ne c h = ground arith

int_of_bits-pos : (n : ℕ) → n < 2 ^ 31 → int_of_bits n ≡ pos n
unfolding int_of_bits
int_of_bits-pos n h = ground arith

text_lem : (n : ℕ) → n < 2 ^ 31 → print_int (pos n) ≡ text n
text_lem n h = ap print_int (sym (int_of_bits-pos n h))

atoi-print_int : (n : ℕ) → n < 2 ^ 31 → atoi (print_int (pos n)) ≡ pos n
unfolding atoi
atoi-print_int n h = rw (text_lem n h, atoi-text n h) (int_of_bits-pos n h)

-- For 0 < n < 2 ^ 31: a row named by the decimal digits of n is in both tables, ifTable and
-- ifXTable, with index n, and a row named by these digits, a dash and any string is in neither.
pub if_index-print_int :
    (row child : SnmpRow) (n : ℕ) (lane : CString)
    → 1 ≤ n
    → n < 2 ^ 31
    → row.name ≡ print_int (pos n)
    → child.name ≡ print_int (pos n) ++ dash ∷ lane
    → (if_table_skip_function row ≡ false)
      × (if_x_table_skip_function row ≡ false)
      × (if_index row ≡ pos n)
      × (if_table_skip_function child ≡ true)
      × (if_x_table_skip_function child ≡ true)
unfolding if_table_skip_function if_x_table_skip_function if_index
if_index-print_int row child n lane positive bound named split =
    let digits : strchr (print_int (pos n)) dash ≡ false =
      rw (text_lem n bound) (strchr-AreDigits (text n) (text-AreDigits n bound)) in
    let zero_test : (n == 0) ≡ false = ground arith in
    rw
      (
        named,
        split,
        digits,
        atoi-print_int n bound,
        zero_test,
        strchr-append (print_int (pos n)) lane,
      )
      (refl, refl, refl, refl, refl)

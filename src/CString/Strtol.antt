-- ===== src/CString/Strtol.antt =====
-- strtol(s, &endptr, 10) of the C library: the value, and whether endptr is at the end of the string.
use ops_intfd.Prelude.{
  ℕ, zero, suc, ◌-◌, ◌^◌, ℤ, pos, negsuc, Bool, true, false, ◌&&◌, [], ◌∷◌, ◌==◌, if◌then◌else◌,
}
use Prim.Native.Nat.{min}
use ops_intfd.CString.{CString, is_digit, is_a_number, scan_sign, skip_space}

-- The value saturates at the ends of 64 bits.
abbrev pub long_value : Bool × ℕ → ℤ
long_value (false, n) = pos (min n (2 ^ 63 - 1))
long_value (true, zero) = pos 0
long_value (true, suc n) = negsuc (min n (2 ^ 63 - 1))

unfoldable pub strtol : CString → ℤ
unfolding scan_sign skip_space
strtol s = long_value (scan_sign (skip_space s))

abbrev is_digits : CString → Bool
is_digits [] = false
is_digits (c ∷ s) = is_digit c && is_a_number s

-- *endptr == '\0': the string has at least one digit and nothing after its digits, or it is empty.
-- Without a digit endptr is the string.
abbrev ends_after_sign : CString → Bool
ends_after_sign [] = false
ends_after_sign (c ∷ s) =
    if c == b'-' then is_digits s else if c == b'+' then is_digits s else is_digits (c ∷ s)

unfoldable pub strtol_ends : CString → Bool
strtol_ends [] = true
strtol_ends (c ∷ s) = ends_after_sign (skip_space (c ∷ s))

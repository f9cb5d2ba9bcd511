-- ===== src/CString.antt =====
-- C strings as lists of byte values, and what the daemon uses of the C library on them: strcmp,
-- strlen with strncmp (the macro STR_EQ of include/intfd.h), isdigit, strtok, atoi and the "%d" of
-- sprintf. The proofs are in the modules below.
pub mod Equality
pub mod Decimal
pub mod Tokens
pub mod Strtol
use Prim.Native.Char.{code}
use Prim.Native.String.{String}
use Prim.Native.Nat.{min}
use ops_intfd.Prelude.{
  ℕ, zero, suc, ◌+◌, ◌-◌, ◌*◌, ◌/◌, ◌%◌, ◌^◌, ℤ, pos, negsuc, Bool, true, false, ◌&&◌, ◌||◌, Option,
  none, some, List, [], ◌∷◌, ◌++◌, length, ltb, leb, ◌==◌, if◌then◌else◌,
}

abbrev pub CString : Type 0
CString = List ℕ

-- s + n; past the end of the string it is a fault.
unfoldable pub skip_bytes : ℕ → CString → Option CString
skip_bytes zero s = some s
skip_bytes (suc n) [] = none
skip_bytes (suc n) (c ∷ s) = skip_bytes n s

-- The bytes of an ASCII literal.
abbrev pub bytes : String → CString
bytes String.[] = []
bytes (String.◌∷◌ c s) = code c ∷ bytes s

-- strncmp(s, t, n) == 0
unfoldable pub strncmp_is_zero : CString → CString → ℕ → Bool
strncmp_is_zero s t zero = true
strncmp_is_zero [] [] (suc n) = true
strncmp_is_zero [] (y ∷ t) (suc n) = false
strncmp_is_zero (x ∷ s) [] (suc n) = false
strncmp_is_zero (x ∷ s) (y ∷ t) (suc n) = x == y && strncmp_is_zero s t n

-- strcmp(s, t) == 0
unfoldable pub strcmp_is_zero : CString → CString → Bool
strcmp_is_zero [] [] = true
strcmp_is_zero [] (y ∷ t) = false
strcmp_is_zero (x ∷ s) [] = false
strcmp_is_zero (x ∷ s) (y ∷ t) = x == y && strcmp_is_zero s t

-- STR_EQ(s1, s2)
unfoldable pub str_eq : CString → CString → Bool
unfolding strncmp_is_zero
str_eq s1 s2 = length s1 == length s2 && strncmp_is_zero s1 s2 (length s2)

-- data && STR_EQ(data, s)
unfoldable pub is_str : Option CString → CString → Bool
is_str none s = false
is_str (some found) s = str_eq found s

abbrev pub is_digit : ℕ → Bool
is_digit c = leb b'0' c && leb c b'9'

-- The loop of is_a_number: every byte is a digit. The empty string passes.
unfoldable pub is_a_number : CString → Bool
is_a_number [] = true
is_a_number (c ∷ s) = if is_digit c then is_a_number s else false

-- The digits that strtol reads, up to the first other byte, after those already read.
unfoldable pub scan_digits : ℕ → CString → ℕ
scan_digits n [] = n
scan_digits n (c ∷ s) = if is_digit c then scan_digits (n * 10 + (c - b'0')) s else n

abbrev is_space : ℕ → Bool
is_space c = c == 32 || leb 9 c && leb c 13

-- White space, then an optional sign, then digits; the sign is `true` for a minus.
unfoldable pub scan_sign : CString → Bool × ℕ
unfolding scan_digits
scan_sign [] = (false, 0)
scan_sign (c ∷ s) =
    if c == b'-'
    then (true, scan_digits 0 s)
    else if c == b'+'
    then (false, scan_digits 0 s)
    else (false, scan_digits 0 (c ∷ s))

unfoldable pub skip_space : CString → CString
skip_space [] = []
skip_space (c ∷ s) = if is_space c then skip_space s else c ∷ s

-- The low 32 bits of a `long` that strtol returns: it saturates at the ends of 64 bits.
abbrev pub long_bits : Bool × ℕ → ℕ
long_bits (false, n) = min n (2 ^ 63 - 1) % 2 ^ 32
long_bits (true, n) = (2 ^ 64 - min n (2 ^ 63)) % 2 ^ 32

-- The bit pattern of `(int) strtol(s, NULL, 10)`, which is glibc's atoi; this pattern is the value
-- where the result is stored in a uint32_t.
unfoldable pub atoi_bits : CString → ℕ
unfolding scan_sign skip_space
atoi_bits s = long_bits (scan_sign (skip_space s))

-- The int that a 32-bit pattern stands for.
unfoldable pub int_of_bits : ℕ → ℤ
int_of_bits w = if ltb w (2 ^ 31) then pos w else negsuc (2 ^ 32 - 1 - w)

unfoldable pub atoi : CString → ℤ
unfolding atoi_bits int_of_bits
atoi s = int_of_bits (atoi_bits s)

-- The tokens that strtok(s, delim) and then strtok(NULL, delim) return, one after another: the
-- runs of bytes other than the delimiter. `cur` is the run read so far.
abbrev end_token : CString → List CString → List CString
end_token [] rest = rest
end_token (c ∷ cur) rest = (c ∷ cur) ∷ rest

unfoldable pub strtok_from : ℕ → CString → CString → List CString
strtok_from delim cur [] = end_token cur []
strtok_from delim cur (c ∷ s) = elim (c == delim) [
  | true ↦ end_token cur (strtok_from delim [] s)
  | false ↦ strtok_from delim (cur ++ c ∷ []) s
]

unfoldable pub strtok : ℕ → CString → List CString
unfolding strtok_from
strtok delim s = strtok_from delim [] s

-- The decimal digits of a number below 10 ^ fuel, most significant first.
unfoldable pub decimal_fuel : ℕ → ℕ → CString
decimal_fuel zero n = []
decimal_fuel (suc f) n =
    let front = decimal_fuel f (n / 10) in
    if ltb n 10 then (b'0' + n) ∷ [] else front ++ (b'0' + n % 10) ∷ []

-- "%d" of an int: at most ten digits.
unfoldable pub print_int : ℤ → CString
unfolding decimal_fuel
print_int (pos n) = decimal_fuel 10 n
print_int (negsuc n) = b'-' ∷ decimal_fuel 10 (n + 1)

-- ===== src/Cli/Names.antt =====
-- The comparison of names by which src/cli/intf_vty.c sorts the interfaces that it shows.
use ops_intfd.Prelude.{
  ℕ, ◌+◌, ◌-◌, ◌*◌, ◌%◌, ◌^◌, Bool, true, false, ◌&&◌, ◌||◌, not, Option, none, some, [], ◌∷◌, ◌==◌,
  ltb, if◌then◌else◌,
}
use Prim.Native.Nat.{min}
use ops_intfd.CString.{CString, bytes, strcmp_is_zero, is_digit, scan_digits, skip_space, long_bits}

-- The sign of the result of a comparison.
pub data Comparison : Type 0 where
  less equal greater : Comparison

abbrev pub compare_ints : ℕ → ℕ → Comparison
compare_ints a b = if a == b then equal else if ltb a b then less else greater

-- strcmp(s, t)
unfoldable pub strcmp : CString → CString → Comparison
strcmp [] [] = equal
strcmp [] (y ∷ t) = less
strcmp (x ∷ s) [] = greater
strcmp (x ∷ s) (y ∷ t) = if x == y then strcmp s t else if ltb x y then less else greater

-- strchr(s, c) is not null.
unfoldable pub has_char : ℕ → CString → Bool
has_char c [] = false
has_char c (x ∷ s) = x == c || has_char c s

-- What is left after the digits at the front.
unfoldable pub after_digits : CString → CString
after_digits [] = []
after_digits (c ∷ s) = if is_digit c then after_digits s else c ∷ s

-- A conversion of sscanf: white space, an optional sign and at least one digit. The sign is `true`
-- for a minus; the rest of the string follows.
abbrev pub Scanned : Type 0
Scanned = Option (Bool × ℕ × CString)

abbrev digits_after : Bool → CString → Scanned
digits_after sign [] = none
digits_after sign (c ∷ s) =
    if is_digit c then some (sign, scan_digits 0 (c ∷ s), after_digits (c ∷ s)) else none

abbrev signed_digits : CString → Scanned
signed_digits [] = none
signed_digits (c ∷ s) =
    if c == b'-'
    then digits_after true s
    else if c == b'+'
    then digits_after false s
    else digits_after false (c ∷ s)

unfoldable pub scan_number : CString → Scanned
scan_number s = signed_digits (skip_space s)

-- The low 64 bits of what strtoul returns: it saturates, and negates after that.
abbrev pub ulong_bits : Bool → ℕ → ℕ
ulong_bits false n = min n (2 ^ 64 - 1)
ulong_bits true n = if ltb n (2 ^ 64) then (2 ^ 64 - n) % 2 ^ 64 else 2 ^ 64 - 1

-- The rest of a string after a character of the format.
abbrev after_char : ℕ → CString → Option CString
after_char c [] = none
after_char c (x ∷ s) = if x == c then some s else none

-- "%d-%d.%lu": the fields that are not read stay 0.
pub record NumberKey : Type 0 where
  pub id : ℕ
  pub ext_id : ℕ
  pub tag_sub : ℕ

-- ".%lu", after the other fields.
unfoldable pub scan_tag : ℕ → ℕ → CString → NumberKey
scan_tag id ext_id s =
    let unread : NumberKey = record { id = id; ext_id = ext_id; tag_sub = 0 } in
    elim (after_char b'.' s) [
      | none ↦ unread
      | some s' ↦ elim (scan_number s') [
        | none ↦ unread
        | some (sign, n, rest) ↦ record { id = id; ext_id = ext_id; tag_sub = ulong_bits sign n }
      ]
    ]

unfoldable pub scan_ext : ℕ → CString → NumberKey
scan_ext id s =
    let unread : NumberKey = record { id = id; ext_id = 0; tag_sub = 0 } in
    elim (after_char b'-' s) [
      | none ↦ unread
      | some s' ↦ elim (scan_number s') [
        | none ↦ unread
        | some (sign, n, rest) ↦ scan_tag id (long_bits (sign, n)) rest
      ]
    ]

-- The second call of sscanf, "%d.%lu", is made for a name with '.' and without '-'; what the first
-- has read stays where the second reads nothing.
unfoldable pub read_number : CString → NumberKey
unfolding scan_number scan_tag scan_ext has_char
read_number name = elim (scan_number name) [
  | none ↦ record { id = 0; ext_id = 0; tag_sub = 0 }
  | some (sign, n, rest) ↦
      if has_char b'.' name && not (has_char b'-' name)
      then scan_tag (long_bits (sign, n)) 0 rest
      else scan_ext (long_bits (sign, n)) rest
]

unfoldable pub compare_both_intf_numbers : CString → CString → Comparison
compare_both_intf_numbers name1 name2 =
    let a = read_number name1 in
    let b = read_number name2 in
    if a.id == b.id
    then (if a.ext_id == b.ext_id
        then compare_ints a.tag_sub b.tag_sub
        else if ltb a.ext_id b.ext_id
        then less
        else greater)
    else if ltb a.id b.id
    then less
    else greater

unfoldable pub extract_intf_type : CString → CString
extract_intf_type [] = []
extract_intf_type (c ∷ s) = if is_digit c then [] else c ∷ extract_intf_type s

-- The loop with the value so far, an unsigned long.
unfoldable pub extract_tag_from : ℕ → CString → ℕ
extract_tag_from val [] = val
extract_tag_from val (c ∷ s) =
    extract_tag_from (if is_digit c then (val * 10 + (c - b'0')) % 2 ^ 64 else val) s

unfoldable pub extract_tag_from_intf_name : CString → ℕ
unfolding extract_tag_from
extract_tag_from_intf_name name = extract_tag_from 0 name

unfoldable pub compare_both_proper_intf_names : CString → CString → Comparison
unfolding strcmp
compare_both_proper_intf_names name1 name2 =
    elim (strcmp (extract_intf_type name1) (extract_intf_type name2)) [
      | equal ↦ compare_ints (extract_tag_from_intf_name name1) (extract_tag_from_intf_name name2)
      | less ↦ less
      | greater ↦ greater
    ]

-- isdigit(*name)
abbrev pub starts_with_digit : CString → Bool
starts_with_digit [] = false
starts_with_digit (c ∷ s) = is_digit c

unfoldable pub compare_only_one_proper_intf_name : CString → CString → Comparison
compare_only_one_proper_intf_name name1 name2 = if starts_with_digit name1 then less else greater

-- compare_nodes_by_interface_name_and_tag
unfoldable pub compare_nodes : CString → CString → Comparison
unfolding compare_both_intf_numbers compare_only_one_proper_intf_name compare_both_proper_intf_names
compare_nodes name1 name2 =
    if strcmp_is_zero name1 (bytes "bridge_normal")
    then less
    else if strcmp_is_zero name2 (bytes "bridge_normal")
    then greater
    else if starts_with_digit name1 && starts_with_digit name2
    then compare_both_intf_numbers name1 name2
    else if starts_with_digit name1 || starts_with_digit name2
    then compare_only_one_proper_intf_name name1 name2
    else compare_both_proper_intf_names name1 name2

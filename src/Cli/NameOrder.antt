-- ===== src/Cli/NameOrder.antt =====
-- The comparison of names of src/cli/intf_vty.c is an order, as qsort requires.
use ops_intfd.Prelude.{
  ℕ, ◌≡◌, refl, sym, Bool, true, false, ◌&&◌, ◌||◌, not, [], if◌then◌else◌, arith,
}
use ops_intfd.CString.{CString, bytes, strcmp_is_zero, skip_space}
use ops_intfd.Cli.Names.{
  Comparison, less, equal, greater, compare_ints, strcmp, read_number, compare_both_intf_numbers,
  extract_intf_type, extract_tag_from_intf_name, compare_both_proper_intf_names, starts_with_digit,
  compare_only_one_proper_intf_name, compare_nodes,
}
use ops_intfd.Cli.Orders.{
  flip, lex, IsOrder, compare_ints-IsOrder, strcmp_flipped, strcmp_transitive, strcmp_congruent,
  pullback-IsOrder, lex-IsOrder,
}

abbrev is_bridge : CString → Bool
is_bridge name = strcmp_is_zero name (bytes "bridge_normal")

abbrev pub numbers : CString → CString → Comparison
numbers a b =
    let x = read_number a in
    let y = read_number b in
    lex (compare_ints x.id y.id)
      (lex (compare_ints x.ext_id y.ext_id) (compare_ints x.tag_sub y.tag_sub))

abbrev pub types : CString → CString → Comparison
types a b =
    lex (strcmp (extract_intf_type a) (extract_intf_type b))
      (compare_ints (extract_tag_from_intf_name a) (extract_tag_from_intf_name b))

-- The bridge first, then the numbers, then the proper names.
abbrev pub rank : CString → ℕ
rank name = if is_bridge name then 0 else if starts_with_digit name then 1 else 2

-- A name that takes part in the comparison of its kind, and one name for all others.
abbrev only : (CString → Bool) → CString → CString
only p name = if p name then name else []

abbrev is_number : CString → Bool
is_number name = not (is_bridge name) && starts_with_digit name

abbrev is_proper : CString → Bool
is_proper name = not (is_bridge name) && not (starts_with_digit name)

-- The keys one after another.
abbrev pub compare_keys : CString → CString → Comparison
compare_keys a b = lex (compare_ints (rank a) (rank b)) (
    lex (numbers (only is_number a) (only is_number b))
      (types (only is_proper a) (only is_proper b)))

strcmp-IsOrder : IsOrder strcmp
strcmp-IsOrder = record {
  flipped = λ s t. strcmp_flipped s t;
  transitive = strcmp_transitive;
  congruent = strcmp_congruent;
}

by_int-IsOrder : {A : Type 0} (key : A → ℕ) → IsOrder (λ a b. compare_ints (key a) (key b))
by_int-IsOrder key = pullback-IsOrder compare_ints key compare_ints-IsOrder

numbers-IsOrder : IsOrder numbers
numbers-IsOrder = lex-IsOrder _ _ (by_int-IsOrder (λ a. (read_number a).id)) (
    lex-IsOrder _ _ (by_int-IsOrder (λ a. (read_number a).ext_id))
      (by_int-IsOrder (λ a. (read_number a).tag_sub)))

types-IsOrder : IsOrder types
types-IsOrder =
    lex-IsOrder _ _ (pullback-IsOrder strcmp extract_intf_type strcmp-IsOrder)
      (by_int-IsOrder extract_tag_from_intf_name)

compare_keys-IsOrder : IsOrder compare_keys
compare_keys-IsOrder = lex-IsOrder _ _ (by_int-IsOrder rank) (
    lex-IsOrder _ _ (pullback-IsOrder numbers (only is_number) numbers-IsOrder)
      (pullback-IsOrder types (only is_proper) types-IsOrder))

numbers_lem : (a b : CString) → compare_both_intf_numbers a b ≡ numbers a b
unfolding compare_both_intf_numbers
numbers_lem a b = ground arith

types_lem : (a b : CString) → compare_both_proper_intf_names a b ≡ types a b
unfolding compare_both_proper_intf_names
types_lem a b = ground arith

lex_equal : (c : Comparison) → lex c equal ≡ c
lex_equal less = refl
lex_equal equal = refl
lex_equal greater = refl

-- Both sides by the kinds of the names.
kinds_lem :
    (ba bb da db : Bool) (n t n' t' : Comparison)
    → (ba && bb) ≡ false
    → ((not ba && da && (not bb && db)) ≡ true → (n' ≡ n) × (t' ≡ equal))
    → ((not ba && not da && (not bb && not db)) ≡ true → (n' ≡ equal) × (t' ≡ t))
    → (if ba
        then less
        else if bb
        then greater
        else if da && db
        then n
        else if da || db
        then (if da then less else greater)
        else t)
      ≡ lex
          (compare_ints
            (if ba then 0 else if da then 1 else 2)
            (if bb then 0 else if db then 1 else 2))
          (lex n' t')
kinds_lem true true da db n t n' t' h k l = absurd (cc h)
kinds_lem true false da true n t n' t' h k l = refl
kinds_lem true false da false n t n' t' h k l = refl
kinds_lem false true true db n t n' t' h k l = refl
kinds_lem false true false db n t n' t' h k l = refl
kinds_lem false false true true n t n' t' h k l =
    let (e, e') = k refl in rw (e, e') (sym (lex_equal n))
kinds_lem false false true false n t n' t' h k l = refl
kinds_lem false false false true n t n' t' h k l = refl
kinds_lem false false false false n t n' t' h k l = let (e, e') = l refl in rw (e, e') refl

no_numbers : numbers [] [] ≡ equal
unfolding read_number skip_space
no_numbers = refl

no_types : types [] [] ≡ equal
unfolding strcmp extract_intf_type extract_tag_from_intf_name
no_types = refl

only_yes : (p : CString → Bool) (a : CString) → p a ≡ true → only p a ≡ a
only_yes p a h = rw h refl

only_no : (p : CString → Bool) (a : CString) → p a ≡ false → only p a ≡ []
only_no p a h = rw h refl

-- The comparison of the code, of two names that are not both "bridge_normal", is that of their keys.
compare_nodes-compare_keys :
    (a b : CString) → (is_bridge a && is_bridge b) ≡ false → compare_nodes a b ≡ compare_keys a b
unfolding compare_nodes compare_only_one_proper_intf_name
compare_nodes-compare_keys a b h =
    kinds_lem (is_bridge a) (is_bridge b) (starts_with_digit a) (starts_with_digit b)
      (compare_both_intf_numbers a b) (compare_both_proper_intf_names a b)
      (numbers (only is_number a) (only is_number b)) (types (only is_proper a) (only is_proper b))
      h
      (λ k. (
        rw (only_yes is_number a (ground arith), only_yes is_number b (ground arith))
            (sym (numbers_lem a b)),
        rw (only_no is_proper a (ground arith), only_no is_proper b (ground arith)) no_types,
      ))
      (λ k. (
        rw (only_no is_number a (ground arith), only_no is_number b (ground arith)) no_numbers,
        rw (only_yes is_proper a (ground arith), only_yes is_proper b (ground arith))
            (sym (types_lem a b)),
      ))

-- The names are not both "bridge_normal".
abbrev pub NotBothBridge : CString → CString → Type 0
NotBothBridge a b = (is_bridge a && is_bridge b) ≡ false

-- For three names of which no two are "bridge_normal", the comparison is as qsort requires: it is
-- turned around with its arguments, a name before a name before a third is before the third, and
-- names that do not differ compare alike with the third.
pub compare_nodes-sorts :
    (a b c : CString)
    → NotBothBridge a b
    → NotBothBridge b c
    → NotBothBridge a c
    → (compare_nodes b a ≡ flip (compare_nodes a b))
      × (compare_nodes a b ≡ less → compare_nodes b c ≡ less → compare_nodes a c ≡ less)
      × (compare_nodes a b ≡ equal → compare_nodes a c ≡ compare_nodes b c)
compare_nodes-sorts a b c hab hbc hac =
    let o = compare_keys-IsOrder in
    let hba : NotBothBridge b a = ground (arith, hab) in
    rw
      (
        compare_nodes-compare_keys a b hab,
        compare_nodes-compare_keys b c hbc,
        compare_nodes-compare_keys a c hac,
        compare_nodes-compare_keys b a hba,
      )
      (o.flipped a b, o.transitive a b c, o.congruent a b c)

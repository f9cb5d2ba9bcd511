-- ===== src/Parse/Speeds/Bounds.antt =====
-- parse_speeds stays inside the array, and its count is -1 or at most ten.
use ops_intfd.Prelude.{
  ℕ, zero, suc, ap, ◌++◌, ◌<◌, ◌+◌, ◌≤◌, ℤ, pos, ◌≡◌, refl, ◌∙◌, ◌⊎◌, inl, inr, List, [], ◌∷◌,
  arith, length, set, length-set, leb, ◌||◌, not, Bool-cases,
}
use ops_intfd.CString.{CString, atoi_bits, is_a_number, strtok}
use ops_intfd.Interface.{minus_one, max_speeds_allowed}
use ops_intfd.Parse.Speeds.{parse_tokens, parse_speeds}

-- -1, or a number of entries that the array has room for.
abbrev pub IsSpeedCount : ℤ → Type 0
IsSpeedCount n = (n ≡ minus_one) ⊎ ((k : ℕ) × (n ≡ pos k) × (k ≤ max_speeds_allowed))

tokens-count :
    (i : ℕ) (tokens : List CString) (speeds : List ℕ)
    → i ≤ max_speeds_allowed
    → IsSpeedCount (parse_tokens i tokens speeds).0
unfolding parse_tokens
tokens-count i [] speeds h = inr (i, refl, h)
tokens-count i (ptr ∷ rest) speeds h =
    elim (Bool-cases (leb max_speeds_allowed i || not (is_a_number ptr))) [
      | inl stop ↦ rw stop (inl refl)
      | inr more ↦ rw more (tokens-count (i + 1) rest (set speeds i (atoi_bits ptr)) (ground arith))
    ]

-- A write inside the array leaves what stands behind it.
set-append :
    (xs beyond : List ℕ) (i v : ℕ) → i < length xs → set (xs ++ beyond) i v ≡ set xs i v ++ beyond
set-append [] beyond i v h = absurd (omega arith)
set-append (x ∷ xs) beyond zero v h = refl
set-append (x ∷ xs) beyond (suc i) v h = ap (λ ys. x ∷ ys) (set-append xs beyond i v (omega arith))

tokens-append :
    (i : ℕ) (tokens : List CString) (speeds beyond : List ℕ)
    → length speeds ≡ max_speeds_allowed
    → parse_tokens i tokens (speeds ++ beyond)
      ≡ ((parse_tokens i tokens speeds).0, (parse_tokens i tokens speeds).1 ++ beyond)
unfolding parse_tokens
tokens-append i [] speeds beyond full = refl
tokens-append i (ptr ∷ rest) speeds beyond full =
    elim (Bool-cases (leb max_speeds_allowed i || not (is_a_number ptr))) [
      | inl stop ↦ rw stop refl
      | inr more ↦
          let inside : i < length speeds = ground arith in
          rw (more, set-append speeds beyond i (atoi_bits ptr) inside)
            (tokens-append (i + 1) rest (set speeds i (atoi_bits ptr)) beyond
              (length-set speeds i (atoi_bits ptr) ∙ full))
    ]

-- For every string, an array of ten entries and whatever stands behind it in the memory: the count
-- is -1 or at most ten, neither the count nor the entries depend on what stands behind the array, and
-- that is left as it was.
pub parse_speeds-bounds :
    (str : CString) (speeds beyond : List ℕ)
    → length speeds ≡ max_speeds_allowed
    → IsSpeedCount (parse_speeds str speeds).0
      × (parse_speeds str (speeds ++ beyond)
          ≡ ((parse_speeds str speeds).0, (parse_speeds str speeds).1 ++ beyond))
unfolding parse_speeds
parse_speeds-bounds str speeds beyond full = (
  tokens-count 0 (strtok b',' str) speeds (omega arith),
  tokens-append 0 (strtok b',' str) speeds beyond full,
)

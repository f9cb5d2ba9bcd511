-- ===== src/CString/Equality.antt =====
-- The string comparisons of the daemon decide equality.
use ops_intfd.Prelude.{true, false, ◌≡◌, refl, ap, ◌↔◌, ◌≢◌, [], ◌∷◌, arith, length, is_yes}
use ops_intfd.CString.{CString, strncmp_is_zero, strcmp_is_zero, str_eq}

strncmp_sound :
    (s t : CString) → length s ≡ length t → strncmp_is_zero s t (length t) ≡ true → s ≡ t
unfolding strncmp_is_zero
strncmp_sound [] [] l h = refl
strncmp_sound [] (y ∷ t) l h = absurd (ground arith)
strncmp_sound (x ∷ s) [] l h = absurd (ground arith)
strncmp_sound (x ∷ s) (y ∷ t) l h = ground (arith, strncmp_sound s t)

strncmp_refl : (s : CString) → strncmp_is_zero s s (length s) ≡ true
unfolding strncmp_is_zero
strncmp_refl [] = refl
strncmp_refl (x ∷ s) = ground (arith, strncmp_refl s)

pub str_eq_refl : (s : CString) → str_eq s s ≡ true
unfolding str_eq
str_eq_refl s = ground (arith, strncmp_refl s)

pub str_eq_sound : (s t : CString) → str_eq s t ≡ true → s ≡ t
unfolding str_eq
str_eq_sound s t h = ground (arith, strncmp_sound s t)

-- STR_EQ holds of equal strings and of no others.
pub str_eq_iff : (s t : CString) → (str_eq s t ≡ true) ↔ (s ≡ t)
str_eq_iff s t = (str_eq_sound s t, λ e. ground (arith, str_eq_refl s))

pub strcmp_sound : (s t : CString) → strcmp_is_zero s t ≡ true → s ≡ t
unfolding strcmp_is_zero
strcmp_sound [] [] h = refl
strcmp_sound [] (y ∷ t) h = absurd (ground arith)
strcmp_sound (x ∷ s) [] h = absurd (ground arith)
strcmp_sound (x ∷ s) (y ∷ t) h = ground (arith, strcmp_sound s t)

pub strcmp_refl : (s : CString) → strcmp_is_zero s s ≡ true
unfolding strcmp_is_zero
strcmp_refl [] = refl
strcmp_refl (x ∷ s) = ground (arith, strcmp_refl s)

pub strcmp_iff : (s t : CString) → (strcmp_is_zero s t ≡ true) ↔ (s ≡ t)
strcmp_iff s t = (strcmp_sound s t, λ e. ground (arith, strcmp_refl s))

pub strcmp_ne : (s t : CString) → strcmp_is_zero s t ≡ false → s ≢ t
strcmp_ne s t h e = ground (arith, (strcmp_iff s t).1 e)

pub str_eq_ne : (s t : CString) → s ≢ t → str_eq s t ≡ false
str_eq_ne s t h = ground (arith, str_eq_sound s t)

-- Comparing the names of an enumeration whose names differ is comparing its values.
module _ {A : Type 0} (d : Discrete A) (name : A → CString)
    (inj : (a b : A) → name a ≡ name b → a ≡ b) where
  pub strcmp-name : (a b : A) → strcmp_is_zero (name a) (name b) ≡ is_yes (d a b)
  strcmp-name a b = elim (d a b) as (λ c. strcmp_is_zero (name a) (name b) ≡ is_yes c) [
    | yes e ↦ ground (arith, strcmp_iff (name a) (name b), ap name e)
    | no n ↦ ground (arith, strcmp_sound (name a) (name b), inj a b)
  ]

  pub str_eq-name : (a b : A) → str_eq (name a) (name b) ≡ is_yes (d a b)
  str_eq-name a b = elim (d a b) as (λ c. str_eq (name a) (name b) ≡ is_yes c) [
    | yes e ↦ ground (arith, str_eq_iff (name a) (name b), ap name e)
    | no n ↦ ground (arith, str_eq_sound (name a) (name b), inj a b)
  ]

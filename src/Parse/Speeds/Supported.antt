-- ===== src/Parse/Speeds/Supported.antt =====
-- The comparison of the user's speeds with those of the hardware.
use ops_intfd.Prelude.{
  ℕ, zero, suc, ◌≤◌, pos, ◌≡◌, refl, ◌⊎◌, inl, inr, true, List, [], ◌∷◌, All, arith, take, ◌↔◌,
}
use ops_intfd.Interface.{minus_one}
use ops_intfd.Parse.Speeds.{is_supported, all_supported, check_supported}

-- The speed is in the list.
abbrev pub Occurs : ℕ → List ℕ → Type 0
Occurs speed [] = ⊥
Occurs speed (s ∷ rest) = (speed ≡ s) ⊎ Occurs speed rest

is_supported_sound :
    (speed m : ℕ) (supported : List ℕ)
    → is_supported speed m supported ≡ true
    → Occurs speed (take m supported)
unfolding is_supported
is_supported_sound speed zero supported h = cc
is_supported_sound speed (suc m) [] h = cc
is_supported_sound speed (suc m) (s ∷ supported) h =
    ground (arith, is_supported_sound speed m supported)

is_supported_complete :
    (speed m : ℕ) (supported : List ℕ)
    → Occurs speed (take m supported)
    → is_supported speed m supported ≡ true
unfolding is_supported
is_supported_complete speed zero supported h = elim h [ ]
is_supported_complete speed (suc m) [] h = elim h [ ]
is_supported_complete speed (suc m) (s ∷ supported) (inl e) = ground arith
is_supported_complete speed (suc m) (s ∷ supported) (inr o) =
    ground (arith, is_supported_complete speed m supported o)

abbrev pub AllOccur : List ℕ → List ℕ → Type 0
AllOccur speeds supported = All (λ speed. Occurs speed supported) speeds

all_supported_sound :
    (n : ℕ) (speeds : List ℕ) (m : ℕ) (supported : List ℕ)
    → all_supported n speeds m supported ≡ true
    → AllOccur (take n speeds) (take m supported)
unfolding all_supported
all_supported_sound zero speeds m supported h = tt
all_supported_sound (suc n) [] m supported h = tt
all_supported_sound (suc n) (s ∷ speeds) m supported h = (
  is_supported_sound s m supported (ground arith),
  all_supported_sound n speeds m supported (ground arith),
)

all_supported_complete :
    (n : ℕ) (speeds : List ℕ) (m : ℕ) (supported : List ℕ)
    → AllOccur (take n speeds) (take m supported)
    → all_supported n speeds m supported ≡ true
unfolding all_supported
all_supported_complete zero speeds m supported h = refl
all_supported_complete (suc n) [] m supported h = refl
all_supported_complete (suc n) (s ∷ speeds) m supported h = ground (
  arith,
  is_supported_complete s m supported h.0,
  all_supported_complete n speeds m supported h.1,
)

-- The user's count is kept exactly when it is not larger than that of the hardware and each of the
-- user's speeds is among the hardware's; if it is not kept it becomes -1.
pub check_supported_iff :
    (n m : ℕ) (speeds supported : List ℕ)
    → ((check_supported (pos n) speeds (pos m, supported) ≡ pos n)
        ↔ ((n ≤ m) × AllOccur (take n speeds) (take m supported)))
      × ((check_supported (pos n) speeds (pos m, supported) ≡ pos n)
          ⊎ (check_supported (pos n) speeds (pos m, supported) ≡ minus_one))
unfolding check_supported
check_supported_iff n m speeds supported = (
  (
    λ e. (ground arith, all_supported_sound n speeds m supported (ground arith)),
    λ (le, occur). ground (arith, all_supported_complete n speeds m supported occur),
  ),
  ground arith,
)

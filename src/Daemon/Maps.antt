-- ===== src/Daemon/Maps.antt =====
-- The maps of names that src/intfd_ovsdb_if.c keeps (`struct shash`), and the addresses in them.
use ops_intfd.Prelude.{
  ℕ, ◌≡◌, refl, Bool, true, false, ◌||◌, ◌&&◌, not, Bool-cases, inl, inr, none, some, [], ◌∷◌, ◌==◌,
  if◌then◌else◌, arith,
}
use ops_intfd.CString.{CString, strcmp_is_zero}
use ops_intfd.CString.Equality.{strcmp_iff}
use ops_intfd.Daemon.{Shash, shash_find, shash_add, shash_delete}

module _ {A : Type 0} where
  -- A deletion takes away the entries of the name, and no others.
  pub find-delete :
      (c : Shash A) (name key : CString)
      → shash_find (shash_delete c name) key
        ≡ (if strcmp_is_zero name key then none else shash_find c key)
  unfolding shash_find shash_delete
  find-delete [] name key = ground arith
  find-delete ((other, a) ∷ rest) name key = ground (
    arith,
    find-delete rest name key,
    strcmp_iff other name,
    strcmp_iff other key,
    strcmp_iff name key,
  )

  pub find-add :
      (c : Shash A) (name key : CString) (a : A)
      → shash_find c name ≡ none
      → shash_find (shash_add c name a) key
        ≡ (if strcmp_is_zero name key then some a else shash_find c key)
  unfolding shash_find
  find-add [] name key a h = refl
  find-add ((other, b) ∷ rest) name key a h = ground (
    arith,
    find-add rest name key a,
    strcmp_iff other name,
    strcmp_iff other key,
    strcmp_iff name key,
  )

  pub delete_absent :
      (c : Shash A) (name : CString) → shash_find c name ≡ none → shash_delete c name ≡ c
  unfolding shash_find shash_delete
  delete_absent [] name h = refl
  delete_absent ((other, b) ∷ rest) name h = ground (arith, delete_absent rest name)

unfoldable pub has_address : Shash ℕ → ℕ → Bool
has_address [] a = false
has_address ((_, b) ∷ rest) a = b == a || has_address rest a

-- No two entries have the same name, or the same address.
abbrev pub IsDistinct : Shash ℕ → Type 0
IsDistinct [] = Unit
IsDistinct ((name, a) ∷ rest) =
    (shash_find rest name ≡ none) × (has_address rest a ≡ false) × IsDistinct rest

pub find-has_address :
    (c : Shash ℕ) (name : CString) (a : ℕ) → shash_find c name ≡ some a → has_address c a ≡ true
unfolding shash_find has_address
find-has_address [] name a h = absurd (cc h)
find-has_address ((other, b) ∷ rest) name a h = ground (arith, find-has_address rest name a)

pub has_address-add :
    (c : Shash ℕ) (name : CString) (a b : ℕ)
    → has_address (shash_add c name a) b ≡ (a == b || has_address c b)
unfolding has_address
has_address-add [] name a b = ground arith
has_address-add ((other, c) ∷ rest) name a b = ground (arith, has_address-add rest name a b)

pub add-IsDistinct :
    (c : Shash ℕ) (name : CString) (a : ℕ)
    → shash_find c name ≡ none
    → has_address c a ≡ false
    → IsDistinct c
    → IsDistinct (shash_add c name a)
unfolding shash_find has_address
add-IsDistinct [] name a h k d = (refl, refl, tt)
add-IsDistinct ((other, b) ∷ rest) name a h k (n, m, d) = (
  ground (arith, find-add rest name other a, strcmp_iff name other, strcmp_iff other name),
  ground (arith, has_address-add rest name a b),
  add-IsDistinct rest name a (ground arith) (ground arith) d,
)

-- A deletion of the name of an entry takes away its address, and no other.
pub has_address-delete :
    (c : Shash ℕ) (name : CString) (a b : ℕ)
    → IsDistinct c
    → shash_find c name ≡ some a
    → has_address (shash_delete c name) b ≡ (not (a == b) && has_address c b)
unfolding shash_find shash_delete has_address
has_address-delete [] name a b d h = absurd (cc h)
has_address-delete ((other, x) ∷ rest) name a b (n, m, d) h = ground (
  arith,
  has_address-delete rest name a b d,
  delete_absent rest name,
  strcmp_iff other name,
  find-has_address rest name a,
)

pub has_address-delete_le :
    (c : Shash ℕ) (name : CString) (b : ℕ)
    → has_address c b ≡ false
    → has_address (shash_delete c name) b ≡ false
unfolding shash_delete has_address
has_address-delete_le [] name b h = refl
has_address-delete_le ((other, x) ∷ rest) name b h =
    ground (arith, has_address-delete_le rest name b)

pub delete-IsDistinct :
    (c : Shash ℕ) (name : CString) → IsDistinct c → IsDistinct (shash_delete c name)
unfolding shash_delete
delete-IsDistinct [] name d = tt
delete-IsDistinct ((other, a) ∷ rest) name (n, m, d) =
    elim (Bool-cases (strcmp_is_zero other name)) [
      | inl e ↦ rw e (delete-IsDistinct rest name d)
      | inr e ↦ rw e (
        ground (arith, find-delete rest name other),
        has_address-delete_le rest name a m,
        delete-IsDistinct rest name d,
      )
    ]

-- ===== src/StringMap/Assoc.antt =====
-- An implementation of the string maps by association lists, for the tests and witnesses.
use ops_intfd.Prelude.{
  ◌⊎◌, inl, ap, ◌↔◌, Bool, true, false, ◌&&◌, ◌≡◌, refl, Option, none, some, [], ◌∷◌, arith,
  if◌then◌else◌,
}
use ops_intfd.CString.{CString, strcmp_is_zero}
use ops_intfd.CString.Equality.{strcmp_iff}
use ops_intfd.StringMap.{Smap, SmapCalls}

unfoldable pub assoc_get : Smap → CString → Option CString
assoc_get [] k = none
assoc_get ((j, v) ∷ m) k = if strcmp_is_zero j k then some v else assoc_get m k

unfoldable pub assoc_remove : Smap → CString → Smap
assoc_remove [] k = []
assoc_remove ((j, v) ∷ m) k =
    let rest = assoc_remove m k in if strcmp_is_zero j k then rest else (j, v) ∷ rest

pub get-remove :
    (m : Smap) (k j : CString)
    → assoc_get (assoc_remove m k) j ≡ (if strcmp_is_zero k j then none else assoc_get m j)
unfolding assoc_get assoc_remove
get-remove [] k j = ground arith
get-remove ((i, v) ∷ m) k j =
    ground (arith, get-remove m k j, strcmp_iff i k, strcmp_iff i j, strcmp_iff k j)

pub get-replace :
    (m : Smap) (k j v : CString)
    → assoc_get ((k, v) ∷ assoc_remove m k) j
      ≡ (if strcmp_is_zero k j then some v else assoc_get m j)
unfolding assoc_get
get-replace m k j v = ground (arith, get-remove m k j)

pub get-add :
    (m : Smap) (k j v : CString)
    → assoc_get m k ≡ none
    → assoc_get ((k, v) ∷ m) j ≡ (if strcmp_is_zero k j then some v else assoc_get m j)
unfolding assoc_get
get-add m k j v h = refl

pub get-init : (k : CString) → assoc_get [] k ≡ none
unfolding assoc_get
get-init k = refl

-- Two entries are the same.
same : Option CString → Option CString → Bool
same none none = true
same none (some w) = false
same (some v) none = false
same (some v) (some w) = strcmp_is_zero v w

same_iff : (x y : Option CString) → (same x y ≡ true) ↔ (x ≡ y)
unfolding same
same_iff none none = (λ _. refl, λ _. refl)
same_iff none (some w) = (λ h. cc, λ h. cc)
same_iff (some v) none = (λ h. cc, λ h. cc)
same_iff (some v) (some w) =
    (λ h. ap some ((strcmp_iff v w).0 h), λ h. ground (arith, strcmp_iff v w))

-- The maps agree on every key of the first one.
agree : Smap → Smap → Smap → Bool
agree [] a b = true
agree ((k, v) ∷ m) a b = same (assoc_get a k) (assoc_get b k) && agree m a b

pub assoc_equal : Smap → Smap → Bool
assoc_equal a b = agree a a b && agree b a b

agree-get :
    (m a b : Smap) (k : CString)
    → agree m a b ≡ true
    → (assoc_get m k ≡ none) ⊎ (assoc_get a k ≡ assoc_get b k)
unfolding agree assoc_get
agree-get [] a b k h = inl refl
agree-get ((j, v) ∷ m) a b k h =
    ground (arith, agree-get m a b k, same_iff (assoc_get a j) (assoc_get b j), strcmp_iff j k)

agree_all : (m a b : Smap) → ((k : CString) → assoc_get a k ≡ assoc_get b k) → agree m a b ≡ true
unfolding agree
agree_all [] a b h = refl
agree_all ((k, v) ∷ m) a b h =
    ground (arith, agree_all m a b h, (same_iff (assoc_get a k) (assoc_get b k)).1 (h k))

pub assoc_equal_iff :
    (a b : Smap) → (assoc_equal a b ≡ true) ↔ ((k : CString) → assoc_get a k ≡ assoc_get b k)
unfolding assoc_equal
assoc_equal_iff a b = (
  λ h k. ground (arith, agree-get a a b k, agree-get b a b k),
  λ h. ground (arith, agree_all a a b h, agree_all b a b h),
)

abbrev pub assoc_calls : SmapCalls
assoc_calls = record {
  get = assoc_get;
  add = λ m k v. (k, v) ∷ m;
  replace = λ m k v. (k, v) ∷ assoc_remove m k;
  remove = assoc_remove;
  equal = assoc_equal;
  equal_iff = assoc_equal_iff;
  get_init = get-init;
  get_add = get-add;
  get_replace = get-replace;
  get_remove = get-remove;
}

-- ===== src/Smap/Laws.antt =====
-- What smap_get returns after each of the calls that change a map.
use ops_intfd.Prelude.{◌↔◌, true, ◌≡◌, refl, none, some, [], if◌then◌else◌}
use ops_intfd.CString.{CString, strcmp_is_zero}
use ops_intfd.CString.Equality.{strcmp_refl}
use ops_intfd.Schema.{Idl}
use ops_intfd.Smap.{Smap, smap_get, smap_add, smap_remove, smap_replace, smap_equal}

module _ ⦃idl : Idl⦄ where
  open idl use {smap_calls}

  pub get-init : (k : CString) → smap_get [] k ≡ none
  get-init = smap_calls.get_init

  pub get-add :
      (m : Smap) (k j v : CString)
      → smap_get m k ≡ none
      → smap_get (smap_add m k v) j ≡ (if strcmp_is_zero k j then some v else smap_get m j)
  get-add = smap_calls.get_add

  pub get-remove :
      (m : Smap) (k j : CString)
      → smap_get (smap_remove m k) j ≡ (if strcmp_is_zero k j then none else smap_get m j)
  get-remove = smap_calls.get_remove

  pub get-replace :
      (m : Smap) (k j v : CString)
      → smap_get (smap_replace m k v) j ≡ (if strcmp_is_zero k j then some v else smap_get m j)
  get-replace = smap_calls.get_replace

  pub smap_equal_iff :
      (a b : Smap) → (smap_equal a b ≡ true) ↔ ((k : CString) → smap_get a k ≡ smap_get b k)
  smap_equal_iff = smap_calls.equal_iff

  pub get-replaced :
      (m : Smap) (key value : CString) → smap_get (smap_replace m key value) key ≡ some value
  get-replaced m key value = rw (get-replace m key key value, strcmp_refl key) refl

  pub get-removed : (m : Smap) (key : CString) → smap_get (smap_remove m key) key ≡ none
  get-removed m key = rw (get-remove m key key, strcmp_refl key) refl

pub ruleset smap_laws = (get-remove, get-replace)

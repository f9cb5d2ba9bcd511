-- ===== src/StringMap.antt =====
-- The string maps of Open vSwitch (`struct smap`), whose code is not part of the repository: the
-- calls that the daemon makes are the fields of a record, with what lib/smap.h documents of them
-- in terms of smap_get. Keys are compared by strcmp, and a map that smap_init has just made is [].
pub mod Assoc
use ops_intfd.Prelude.{◌↔◌, Bool, true, ◌≡◌, Option, none, some, List, [], if◌then◌else◌}
use ops_intfd.CString.{CString, strcmp_is_zero}

-- The pairs of a map.
abbrev pub Smap : Type 0
Smap = List (CString × CString)

pub record SmapCalls : Type 0 where
  pub get : Smap → CString → Option CString
  pub add : Smap → CString → CString → Smap
  pub replace : Smap → CString → CString → Smap
  pub remove : Smap → CString → Smap
  pub equal : Smap → Smap → Bool
  pub get_init : (k : CString) → get [] k ≡ none
  -- The caller of smap_add promises that the key is new.
  pub get_add :
      (m : Smap) (k j v : CString)
      → get m k ≡ none
      → get (add m k v) j ≡ (if strcmp_is_zero k j then some v else get m j)
  pub get_replace :
      (m : Smap) (k j v : CString)
      → get (replace m k v) j ≡ (if strcmp_is_zero k j then some v else get m j)
  pub get_remove :
      (m : Smap) (k j : CString)
      → get (remove m k) j ≡ (if strcmp_is_zero k j then none else get m j)
  pub equal_iff : (a b : Smap) → (equal a b ≡ true) ↔ ((k : CString) → get a k ≡ get b k)

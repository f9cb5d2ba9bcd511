-- ===== src/Smap.antt =====
-- The calls of the string maps under their names in C, from the instance in scope.
pub mod Laws
pub use ops_intfd.StringMap.{Smap}
use ops_intfd.Prelude.{Bool, Option}
use ops_intfd.CString.{CString}
use ops_intfd.Schema.{Idl}

module _ ⦃idl : Idl⦄ where
  open idl use {smap_calls}

  abbrev pub smap_get : Smap → CString → Option CString
  smap_get = smap_calls.get

  abbrev pub smap_add : Smap → CString → CString → Smap
  smap_add = smap_calls.add

  abbrev pub smap_replace : Smap → CString → CString → Smap
  smap_replace = smap_calls.replace

  abbrev pub smap_remove : Smap → CString → Smap
  smap_remove = smap_calls.remove

  abbrev pub smap_equal : Smap → Smap → Bool
  smap_equal = smap_calls.equal

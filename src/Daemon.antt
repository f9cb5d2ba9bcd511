-- ===== src/Daemon.antt =====
-- The state of src/intfd_ovsdb_if.c: the caches all_interfaces and all_ports, the interfaces that
-- are allocated, and the rows of the database as the client presents them.
pub mod Ports
pub mod PortChanges
pub mod Interfaces
pub mod InterfaceChanges
pub mod Run
pub mod Maps
pub mod Frame
pub mod Cache
pub mod Sync
pub mod Round
pub mod OldPort
pub mod Release
pub mod Leave
mod Tests
use ops_intfd.Prelude.{
  ℕ, suc, ℤ, Bool, true, false, Option, none, some, List, [], ◌∷◌, ◌++◌, ◌==◌, if◌then◌else◌, ◌>>=◌,
  map,
}
use ops_intfd.CString.{CString, strcmp_is_zero}
use ops_intfd.Smap.{Smap}
use ops_intfd.Schema.{Idl}
use ops_intfd.Database.{Ifrow}
use ops_intfd.Interface.{Iface}
use ops_intfd.Arbiter.{LayerClass}
use ops_intfd.Config.State.{Heap}
use ops_intfd.Config.Set.{set_interface_config}

-- A map from names (`struct shash`): its entries in the order in which SHASH_FOR_EACH visits them.
abbrev pub Shash : Type 0 → Type 0
Shash A = List (CString × A)

module _ {A : Type 0} where
  unfoldable pub shash_find : Shash A → CString → Option A
  shash_find [] name = none
  shash_find ((other, a) ∷ rest) name =
      if strcmp_is_zero other name then some a else shash_find rest name

  -- The caller of shash_add promises that the name is new.
  abbrev pub shash_add : Shash A → CString → A → Shash A
  shash_add entries name a = entries ++ (name, a) ∷ []

  unfoldable pub shash_delete : Shash A → CString → Shash A
  shash_delete [] name = []
  shash_delete ((other, a) ∷ rest) name =
      let left = shash_delete rest name in
      if strcmp_is_zero other name then left else (other, a) ∷ left

-- The Interface table: each row under the number by which other rows refer to it.
abbrev pub Rows : Type 0
Rows = List (ℕ × Ifrow)

unfoldable pub get_row : Rows → ℕ → Option Ifrow
get_row [] r = none
get_row ((s, row) ∷ rows) r = if s == r then some row else get_row rows r

unfoldable pub put_row : Rows → ℕ → Ifrow → Rows
put_row [] r row = []
put_row ((s, old) ∷ rows) r row = (s, if s == r then row else old) ∷ put_row rows r row

-- struct ovsrec_port
pub record PortRow : Type 0 where
  pub name : CString
  pub admin : Option CString
  pub interfaces : List ℕ
  pub is_modified : Bool

-- struct port_info: `interface`, with `n_interfaces` as its length, are pointers to rows.
pub record PortInfo : Type 0 where
  pub name : CString
  pub interfaces : List ℕ

-- What the client answers in one round of intfd_run, and the daemon does not change.
pub record Feed : Type 0 where
  pub seqno : ℕ
  pub lock_contended : Bool
  pub has_lock : Bool
  -- cur_cfg of the first row of the System table, if there is one
  pub cur_cfg : Option ℤ
  pub subsystems : List (CString × Smap)
  pub ports : List PortRow
  -- OVSREC_IDL_ANY_TABLE_ROWS_... and OVSREC_IDL_IS_COLUMN_MODIFIED for the Port table
  pub ports_inserted : Bool
  pub ports_deleted : Bool
  pub ports_modified : Bool
  pub admin_modified : Bool
  pub interfaces_modified : Bool

-- The memory of the daemon and the Interface table that it writes to. `next` is an address that
-- has not been used.
pub record World : Type 0 where
  pub rows : Rows
  pub all_interfaces : Shash ℕ
  pub heap : Heap
  pub next : ℕ
  pub all_ports : Shash PortInfo
  pub base_mtu : ℤ
  pub idl_seqno : ℕ
  pub system_configured : Bool
  pub layers : List LayerClass

abbrev pub update_heap : Heap → ℕ → Option Iface → Heap
update_heap heap a cell b = if a == b then cell else heap b

abbrev pub store_iface : ℕ → Iface → World → World
store_iface a intf w = record w { heap = update_heap w.heap a (some intf) }

abbrev pub store_row : ℕ → Ifrow → World → World
store_row r row w = record w { rows = put_row w.rows r row }

-- A loop whose body may fault.
unfoldable pub for_each {ℓ} :
    {A : Type ℓ} → (A → World → Option World) → List A → World → Option World
for_each body [] w = some w
for_each body (a ∷ as') w = body a w >>= for_each body as'

module _ ⦃idl : Idl⦄ where
  -- set_interface_config(ifrow, intf), from the two pointers.
  unfoldable pub configure : ℕ → ℕ → World → Option World
  configure r a w = do
    row ← get_row w.rows r
    intf ← w.heap a
    (row', intf') ← set_interface_config w.heap row intf
    some (store_iface a intf' (store_row r row' w))

-- ===== src/Cli/Split.antt =====
-- What the command split of src/cli/intf_vty.c does to the ports: remove_port_and_references and what it
-- calls. Cli/Split/Command is the command.
pub mod Command
pub mod Ports
pub mod Removal
pub mod Lag
mod Tests
use ops_intfd.Prelude.{
  ℕ, zero, suc, ◌+◌, Bool, true, false, ◌&&◌, ◌||◌, not, Option, none, some, List, [], ◌∷◌, ◌==◌,
  ltb, length, if◌then◌else◌, ◌>>=◌,
}
use ops_intfd.CString.{CString, strcmp_is_zero, strncmp_is_zero}
use ops_intfd.Smap.{Smap, smap_get, smap_replace, smap_remove}
use ops_intfd.Schema.{Idl, UserConfigKey, LaneSplit}
use ops_intfd.Database.{Ifrow}
use ops_intfd.Daemon.{Rows, get_row, put_row}
use ops_intfd.Cli.{CmdResult, cmd_success, cmd_ovsdb_failure, Session}

-- A row of the Port table, under the number by which other rows refer to it; its interfaces are
-- numbers of rows.
pub record PortRow : Type 0 where
  pub id : ℕ
  pub name : CString
  pub interfaces : List ℕ

-- The tables that the command changes: `vrfs` and `bridges` are the ports of each row, and
-- `other_config` is that column of the Interface table.
pub record Db : Type 0 where
  pub rows : Rows
  pub other_config : ℕ → Smap
  pub ports : List PortRow
  pub vrfs : List (List ℕ)
  pub bridges : List (List ℕ)

-- What the command uses of other repositories: the look-ups of the shell's utilities, where the row
-- of the VRF is given by its place in the table, and strings of generated headers.
pub record Utils : Type 0 where
  pub check_port_in_vrf : Db → CString → Bool
  pub port_match_in_vrf : Db → PortRow → Option ℕ
  pub check_port_in_bridge : Db → CString → Bool
  pub aggregation_key : CString
  pub split_4_key : CString
  pub split_4_true : CString

-- The loops that copy an array without one pointer.
unfoldable pub without : ℕ → List ℕ → List ℕ
without id [] = []
without id (x ∷ xs) = let rest = without id xs in if x == id then rest else x ∷ rest

-- The array has room for one entry less: if the pointer is not in it, the loop writes past its end.
unfoldable pub copy_without : ℕ → List ℕ → Option (List ℕ)
unfolding without
copy_without id xs = if ltb (length (without id xs)) (length xs) then some (without id xs) else none

-- The change of one row of a table of references, which a null pointer cannot name.
unfoldable pub remove_at : ℕ → ℕ → List (List ℕ) → Option (List (List ℕ))
unfolding copy_without
remove_at id i [] = none
remove_at id zero (ports ∷ rest) = do left ← copy_without id ports; some (left ∷ rest)
remove_at id (suc i) (ports ∷ rest) = do rest' ← remove_at id i rest; some (ports ∷ rest')

abbrev pub delete_port : ℕ → List PortRow → List PortRow
delete_port id [] = []
delete_port id (port ∷ ports) =
    let rest = delete_port id ports in if port.id == id then rest else port ∷ rest

abbrev pub set_interfaces : ℕ → List ℕ → List PortRow → List PortRow
set_interfaces id interfaces [] = []
set_interfaces id interfaces (port ∷ ports) =
    (if port.id == id then record port { interfaces = interfaces } else port)
    ∷ set_interfaces id interfaces ports

-- ovsrec_port_delete
unfoldable pub ovsrec_port_delete : ℕ → List PortRow → List PortRow
ovsrec_port_delete = delete_port

abbrev pub update_config : (ℕ → Smap) → ℕ → Smap → ℕ → Smap
update_config config r m s = if r == s then m else config s

-- An element of the array; past its end there is none.
abbrev pub at : List ℕ → ℕ → Option ℕ
at [] i = none
at (x ∷ xs) zero = some x
at (x ∷ xs) (suc i) = at xs i

-- strncmp(intf_row->name, if_name, strlen(intf_row->name)) == 0
abbrev pub name_matches : Ifrow → CString → Bool
name_matches row name = strncmp_is_zero row.name name (length row.name)

module _ (utils : Utils) where
  open utils use {check_port_in_vrf, port_match_in_vrf, check_port_in_bridge, aggregation_key}

  unfoldable pub remove_vrf_reference : PortRow → Db → Option Db
  unfolding remove_at
  remove_vrf_reference port db =
      if check_port_in_vrf db port.name
      then (do
        vrf ← port_match_in_vrf db port
        vrfs ← remove_at port.id vrf db.vrfs
        some (record db { vrfs = vrfs }))
      else some db

  unfoldable pub remove_port_reference : PortRow → Db → Option Db
  unfolding remove_vrf_reference
  remove_port_reference port db = do
    db' ← remove_vrf_reference port db
    if check_port_in_bridge db' port.name
        then (do bridges ← remove_at port.id 0 db'.bridges; some (record db' { bridges = bridges }))
        else some db'

module _ ⦃idl : Idl⦄ (utils : Utils) where
  open utils use {aggregation_key}

  -- remove_interface_from_lag_port, for an interface that is in the port.
  unfoldable pub remove_interface_from_lag_port : PortRow → ℕ → Db → Db
  unfolding without
  remove_interface_from_lag_port port r db = record db {
    other_config =
        update_config db.other_config r (smap_remove (db.other_config r) aggregation_key);
    ports = set_interfaces port.id (without r port.interfaces) db.ports;
  }

  -- The loop over the interfaces of a port from the index `i`, whose array changes under it: an
  -- element that moves to the index of one that was removed is passed over. The fuel is the length
  -- of the array at the start.
  unfoldable pub remove_members : ℕ → ℕ → CString → PortRow → Db → Option Db
  unfolding remove_interface_from_lag_port without
  remove_members zero i name port db = some db
  remove_members (suc fuel) i name port db = elim (at port.interfaces i) [
    | none ↦ some db
    | some r ↦ elim (get_row db.rows r) [
      | none ↦ none
      | some row ↦ elim (name_matches row name) [
        | true ↦
            remove_members fuel (suc i) name
              (record port { interfaces = without r port.interfaces })
              (remove_interface_from_lag_port port r db)
        | false ↦ remove_members fuel (suc i) name port db
      ]
    ]
  ]

  -- The body of the loop over the ports.
  unfoldable pub remove_from_port : CString → PortRow → Db → Option Db
  unfolding remove_port_reference remove_members ovsrec_port_delete
  remove_from_port name port db =
      if strcmp_is_zero port.name name
      then (do
        db' ← remove_port_reference utils port db
        some (record db' { ports = ovsrec_port_delete port.id db'.ports }))
      else remove_members (length port.interfaces) 0 name port db

  unfoldable pub remove_from_ports : CString → List PortRow → Db → Option Db
  unfolding remove_from_port
  remove_from_ports name [] db = some db
  remove_from_ports name (port ∷ ports) db =
      remove_from_port name port db >>= remove_from_ports name ports

  unfoldable pub remove_port_and_references : CString → Db → Option Db
  unfolding remove_from_ports
  remove_port_and_references name db = remove_from_ports name db.ports db

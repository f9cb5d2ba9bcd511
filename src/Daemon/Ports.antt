-- ===== src/Daemon/Ports.antt =====
-- The ports of src/intfd_ovsdb_if.c: the cache all_ports, and what a change of the Port table does
-- to the interfaces (port_reconfigure and what it calls).
use ops_intfd.Prelude.{
  ℕ, Bool, true, false, ◌||◌, not, Option, none, some, List, [], ◌∷◌, ◌==◌, if◌then◌else◌, ◌>>=◌,
}
use ops_intfd.CString.{CString, bytes, strcmp_is_zero, is_str}
use ops_intfd.Smap.{smap_get, smap_add}
use ops_intfd.Schema.{Idl, PortAdmin, UserAdmin, UserConfigKey, HwConfigKey}
use ops_intfd.Database.{Ifrow}
use ops_intfd.Daemon.{
  shash_find, shash_add, shash_delete, Rows, get_row, PortRow, PortInfo, World, store_iface,
  store_row, for_each, configure,
}

-- Some interface of the port has the name. The client keeps the rows that a column of its refers to.
unfoldable pub has_interface : Rows → CString → List ℕ → Bool
unfolding get_row
has_interface rows name [] = false
has_interface rows name (r ∷ rest) =
    elim (get_row rows r) [ none ↦ false | some row ↦ strcmp_is_zero row.name name ]
    || has_interface rows name rest

unfoldable pub get_matching_port_row : List PortRow → Rows → CString → Option PortRow
unfolding has_interface
get_matching_port_row [] rows name = none
get_matching_port_row (port ∷ ports) rows name =
    if has_interface rows name port.interfaces
    then some port
    else get_matching_port_row ports rows name

unfoldable pub get_matching_interface_row : Rows → CString → Option Ifrow
get_matching_interface_row [] name = none
get_matching_interface_row ((_, row) ∷ rows) name =
    if strcmp_is_zero row.name name then some row else get_matching_interface_row rows name

-- (port_row->admin == NULL) || (strcmp(port_row->admin, "up") == 0)
unfoldable pub admin_of : PortRow → PortAdmin
admin_of port = elim port.admin [
  | none ↦ PortAdmin.up
  | some admin ↦ if strcmp_is_zero admin (bytes "up") then PortAdmin.up else PortAdmin.down
]

-- Whether the interface has a port, and the state that is stored.
unfoldable pub port_parse_admin : List PortRow → Rows → CString → Bool × PortAdmin
unfolding get_matching_port_row admin_of
port_parse_admin ports rows name = elim (get_matching_port_row ports rows name) [
  | none ↦ (false, PortAdmin.down)
  | some port ↦ (true, admin_of port)
]

unfoldable pub add_new_port : PortRow → World → World
unfolding shash_find
add_new_port port w = elim (shash_find w.all_ports port.name) [
  | some _ ↦ w
  | none ↦
      let info : PortInfo = record { name = port.name; interfaces = port.interfaces } in
      record w { all_ports = shash_add w.all_ports port.name info }
]

module _ ⦃idl : Idl⦄ where
  open idl use {
    user_config_key, hw_config_key, admin_up, enable_false, type_internal, type_vlansubint,
    type_loopback,
  }

  unfoldable pub intf_parse_admin : Ifrow → UserAdmin
  intf_parse_admin row =
      if is_str (smap_get row.user_config (user_config_key UserConfigKey.admin)) admin_up
      then UserAdmin.up
      else UserAdmin.down

  -- hw_intf_config becomes { enable = false }.
  abbrev pub disabled : Ifrow → Ifrow
  disabled row = record row {
    hw_intf_config = smap_add [] (hw_config_key HwConfigKey.enable) enable_false;
  }

  unfoldable pub reset_row : ℕ → World → Option World
  reset_row r w = do row ← get_row w.rows r; some (store_row r (disabled row) w)

  -- The body of the loop of del_old_port: the name of the row is read through a pointer that may be
  -- to a deleted row.
  unfoldable pub release_row : List PortRow → CString → ℕ → World → Option World
  unfolding reset_row
  release_row ports port_name r w = elim (get_matching_interface_row w.rows port_name) [
    | none ↦ some w
    | some _ ↦ (do
      row ← get_row w.rows r
      elim (get_matching_port_row ports w.rows row.name) [ none ↦ reset_row r w | some _ ↦ some w ])
  ]

  unfoldable pub del_old_port : List PortRow → CString → PortInfo → World → Option World
  unfolding for_each release_row
  del_old_port ports name info w = do
    w' ← for_each (release_row ports name) info.interfaces w
    some (record w' { all_ports = shash_delete w'.all_ports name })

  -- Both loops of remove_interface_from_port, for an interface that has another port: its states are
  -- read anew and it is configured. The pointer to the interface is that of the cache.
  unfoldable pub readmit : PortAdmin → ℕ → ℕ → World → Option World
  unfolding intf_parse_admin
  readmit port_admin r a w = do
    row ← get_row w.rows r
    intf ← w.heap a
    configure r a (
        store_iface a
          (record intf {
            port_admin = port_admin;
            user_cfg = record intf.user_cfg { admin_state = intf_parse_admin row };
          })
          w)

  -- port_parse_admin writes through its argument also if it finds no port.
  abbrev pub store_admin : ℕ → PortAdmin → World → Option World
  store_admin a port_admin w = do
    intf ← w.heap a
    some (store_iface a (record intf { port_admin = port_admin }) w)

  unfoldable pub leave_port : List PortRow → ℕ → ℕ → World → Option World
  unfolding readmit reset_row port_parse_admin
  leave_port ports r a w = do
    row ← get_row w.rows r
    let (found, port_admin) = port_parse_admin ports w.rows row.name
    elim found [
      | true ↦ readmit port_admin r a w
      | false ↦ (do w' ← store_admin a port_admin w; reset_row r w')
    ]

  -- The body of the first loop: the interface has to be in the cache.
  unfoldable pub empty_port : List PortRow → ℕ → World → Option World
  unfolding leave_port
  empty_port ports r w = do
    row ← get_row w.rows r
    a ← shash_find w.all_interfaces row.name
    leave_port ports r a w

  abbrev pub occurs : ℕ → List ℕ → Bool
  occurs r [] = false
  occurs r (s ∷ rest) = r == s || occurs r rest

  -- The body of the second loop, for an interface that the port has lost.
  unfoldable pub drop_lost : List PortRow → List ℕ → ℕ → World → Option World
  unfolding leave_port reset_row
  drop_lost ports kept r w = if occurs r kept then some w else (do
    row ← get_row w.rows r
    elim (shash_find w.all_interfaces row.name) [
      | none ↦ reset_row r w
      | some a ↦ leave_port ports r a w
    ])

  -- Some row of the first list is not in the second, so that the second loop counts it.
  abbrev pub has_lost : List ℕ → List ℕ → Bool
  has_lost [] kept = false
  has_lost (r ∷ rest) kept = not (occurs r kept) || has_lost rest kept

  -- Whether the result is not zero, and the memory afterwards.
  unfoldable pub remove_interface_from_port : List PortRow → PortRow → World → Option (Bool × World)
  unfolding for_each empty_port drop_lost
  remove_interface_from_port ports port w = elim (shash_find w.all_ports port.name) [
    | none ↦ some (false, w)
    | some info ↦ elim port.interfaces [
      | [] ↦ (do
        w1 ← for_each (empty_port ports) info.interfaces w
        w2 ← for_each (drop_lost ports []) info.interfaces w1
        some (true, w2))
      | r ∷ rest ↦ (do
        w2 ← for_each (drop_lost ports (r ∷ rest)) info.interfaces w
        some (has_lost info.interfaces (r ∷ rest), w2))
    ]
  ]

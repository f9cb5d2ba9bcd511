-- ===== src/Daemon/PortChanges.antt =====
-- port_reconfigure of src/intfd_ovsdb_if.c, and add_del_interface_handle_port_config_mods. A result is
-- whether the count `rc` is not zero, with the memory afterwards.
use ops_intfd.Prelude.{
  ℕ, Bool, true, false, ◌||◌, ◌&&◌, not, Option, none, some, List, [], ◌∷◌, ◌==◌, if◌then◌else◌,
  ◌>>=◌,
}
use ops_intfd.CString.{CString, str_eq, strcmp_is_zero}
use ops_intfd.Schema.{Idl}
use ops_intfd.Database.{Ifrow}
use ops_intfd.Daemon.{
  Shash, shash_find, Rows, shash_add, get_row, PortRow, PortInfo, Feed, World, store_iface,
  for_each, configure,
}
use ops_intfd.Daemon.Ports.{
  get_matching_interface_row, admin_of, add_new_port, intf_parse_admin, del_old_port,
  remove_interface_from_port,
}

-- shash_add_once for each row: the first row of a name stays.
unfoldable pub collect_ports : List PortRow → Shash PortRow → Shash PortRow
unfolding shash_find
collect_ports [] found = found
collect_ports (port ∷ ports) found =
    collect_ports ports
      (elim (shash_find found port.name) [ none ↦ shash_add found port.name port | some _ ↦ found ])

unfoldable pub is_empty : List ℕ → Bool
is_empty [] = true
is_empty (_ ∷ _) = false

-- The new list of interfaces of a port that is in the cache.
abbrev pub set_interfaces : CString → List ℕ → Shash PortInfo → Shash PortInfo
set_interfaces name interfaces [] = []
set_interfaces name interfaces ((other, info) ∷ rest) =
    (other, if strcmp_is_zero other name then record info { interfaces = interfaces } else info)
    ∷ set_interfaces name interfaces rest

-- The loop that adds the ports that are not in the cache.
unfoldable pub add_ports : Shash PortRow → World → World
unfolding add_new_port shash_find
add_ports [] w = w
add_ports ((name, port) ∷ rest) w =
    add_ports rest (elim (shash_find w.all_ports name) [ none ↦ add_new_port port w | some _ ↦ w ])

-- The first entry of the cache whose port has no row.
unfoldable pub first_deleted : Shash PortRow → Shash PortInfo → Option (CString × PortInfo)
unfolding shash_find
first_deleted present [] = none
first_deleted present ((name, info) ∷ rest) = elim (shash_find present name) [
  | none ↦ some (name, info)
  | some _ ↦ first_deleted present rest
]

module _ ⦃idl : Idl⦄ where
  open idl use {type_internal, type_vlansubint, type_loopback}

  -- The body of the loop over the interfaces of a port that was modified: the interface has to be in
  -- the cache.
  unfoldable pub refresh_interface : PortRow → ℕ → World → Option World
  unfolding admin_of intf_parse_admin
  refresh_interface port r w = do
    row ← get_row w.rows r
    a ← shash_find w.all_interfaces row.name
    intf ← w.heap a
    configure r a (
        store_iface a
          (record intf {
            port_admin = admin_of port;
            user_cfg = record intf.user_cfg { admin_state = intf_parse_admin row };
          })
          w)

  -- The body of the loop over the ports.
  unfoldable pub handle_port : List PortRow → PortRow → World → Option (Bool × World)
  unfolding for_each refresh_interface
  handle_port ports port w =
      if not port.is_modified then some (false, w) else elim (shash_find w.all_ports port.name) [
        | none ↦ some (false, w)
        | some _ ↦ (do
          w1 ← for_each (refresh_interface port) port.interfaces w
          (removed, w2) ← remove_interface_from_port ports port w1
          some (
            not (is_empty port.interfaces) || removed,
            record w2 { all_ports = set_interfaces port.name port.interfaces w2.all_ports },
          ))
      ]

  -- The loop over the rest of the ports.
  unfoldable pub handle_ports : List PortRow → List PortRow → World → Option (Bool × World)
  unfolding handle_port
  handle_ports ports [] w = some (false, w)
  handle_ports ports (port ∷ rest) w = do
    (rc, w1) ← handle_port ports port w
    (rcs, w2) ← handle_ports ports rest w1
    some (rc || rcs, w2)

  unfoldable pub add_del_interface_handle_port_config_mods : Feed → World → Option (Bool × World)
  unfolding handle_ports
  add_del_interface_handle_port_config_mods feed w =
      if feed.admin_modified || feed.interfaces_modified
      then handle_ports feed.ports feed.ports w
      else some (false, w)

  abbrev pub is_virtual_row : Ifrow → Bool
  is_virtual_row row =
      str_eq row.type type_vlansubint
      || str_eq row.type type_loopback
      || str_eq row.type type_internal

  -- The interface that has the name of the port is virtual.
  abbrev pub is_virtual_port : Rows → CString → Bool
  is_virtual_port rows name = elim (get_matching_interface_row rows name) [
    | none ↦ false
    | some row ↦ is_virtual_row row
  ]

  -- The loop over the cached ports, which ends at the first that has no row.
  unfoldable pub delete_first : Feed → World → Option (Bool × Bool × World)
  unfolding collect_ports first_deleted
  delete_first feed w = elim (first_deleted (collect_ports feed.ports []) w.all_ports) [
    | none ↦ some (false, false, w)
    | some (name, info) ↦ (do w' ← del_old_port feed.ports name info w; some (true, true, w'))
  ]

  -- The branch for a deleted port: true if it ends the function. It reads the first row of the table
  -- through a pointer that is null if no port is left.
  unfoldable pub delete_port : Feed → World → Option (Bool × Bool × World)
  unfolding delete_first get_matching_interface_row
  delete_port feed w = elim feed.ports [
    | [] ↦ none
    | port ∷ _ ↦
        if is_virtual_port w.rows port.name then some (true, false, w) else delete_first feed w
  ]

  unfoldable pub port_reconfigure : Feed → World → Option (Bool × World)
  unfolding add_ports collect_ports delete_port
  port_reconfigure feed w =
      if not feed.ports_modified && not feed.ports_deleted && not feed.ports_inserted
      then some (false, w)
      else if feed.seqno == w.idl_seqno
      then some (false, w)
      else if feed.ports_inserted
      then add_del_interface_handle_port_config_mods feed
          (add_ports (collect_ports feed.ports []) w)
      else if feed.ports_deleted
      then (do
        (ends, rc, w') ← delete_port feed w
        elim ends [
          | true ↦ some (rc, w')
          | false ↦ add_del_interface_handle_port_config_mods feed w'
        ])
      else add_del_interface_handle_port_config_mods feed w

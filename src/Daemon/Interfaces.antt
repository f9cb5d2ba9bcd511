-- ===== src/Daemon/Interfaces.antt =====
-- The interfaces of src/intfd_ovsdb_if.c: the cache all_interfaces, parents and children, and
-- handle_interfaces_config_mods.
use ops_intfd.Prelude.{ℕ, suc, ℤ, pos, false, Option, none, some, List, [], ◌∷◌, length, ◌>>=◌}
use ops_intfd.CString.{CString}
use ops_intfd.Schema.{Idl, UserAdmin, UserAutoneg, UserPause, UserDuplex, LaneSplit}
use ops_intfd.Database.{Ifrow}
use ops_intfd.Interface.{Iface, IntfUserCfg, IntfOperState}
use ops_intfd.Parse.Speeds.{no_speeds}
use ops_intfd.Parse.UserCfg.{parse_hw_info, parse_user_cfg}
use ops_intfd.Parse.PmInfo.{parse_pm_info, parse_split_pm_info}
use ops_intfd.Daemon.{
  Shash, shash_find, shash_add, shash_delete, Rows, get_row, PortRow, World, update_heap,
  store_iface,
}
use ops_intfd.Daemon.Ports.{port_parse_admin}

-- shash_add_once for each row: the first row of a name stays.
unfoldable pub collect_rows : Rows → Shash ℕ → Shash ℕ
unfolding shash_find
collect_rows [] found = found
collect_rows ((r, row) ∷ rows) found =
    collect_rows rows
      (elim (shash_find found row.name) [ none ↦ shash_add found row.name r | some _ ↦ found ])

-- The structure is freed, and its entry deleted.
unfoldable pub del_old_interface : CString → ℕ → World → World
unfolding shash_delete
del_old_interface name a w = record w {
  heap = update_heap w.heap a none;
  all_interfaces = shash_delete w.all_interfaces name;
}

-- The loop over the cache, as it was before the loop.
unfoldable pub del_interfaces : Shash ℕ → Shash ℕ → World → World
unfolding del_old_interface shash_find
del_interfaces present [] w = w
del_interfaces present ((name, a) ∷ rest) w =
    del_interfaces present rest
      (elim (shash_find present name) [ none ↦ del_old_interface name a w | some _ ↦ w ])

-- The children of an interface: null where a child is not in the cache.
unfoldable pub find_children : Rows → Shash ℕ → List ℕ → Option (List (Option ℕ))
unfolding get_row shash_find
find_children rows cache [] = some []
find_children rows cache (r ∷ rest) = do
  row ← get_row rows r
  found ← find_children rows cache rest
  some (shash_find cache row.name ∷ found)

module _ ⦃idl : Idl⦄ where
  open idl use {zero_error, zero_duplex, zero_pause}

  -- What xzalloc gives, as far as the parsers do not write all of it.
  abbrev pub zeroed_state : IntfOperState
  zeroed_state = record {
    enabled = false;
    reason = zero_error;
    autoneg_reason = zero_error;
    duplex = zero_duplex;
    pause = zero_pause;
    autoneg_capability = pos 0;
    autoneg_state = pos 0;
    mtu = pos 0;
    speeds = no_speeds;
    n_speeds = pos 0;
  }

  -- Only the array is read: intfd_parse_user_cfg writes every other field.
  abbrev pub zeroed_user_cfg : IntfUserCfg
  zeroed_user_cfg = record {
    admin_state = UserAdmin.down;
    autoneg = UserAutoneg.default;
    pause = UserPause.no_pause;
    duplex = UserDuplex.full;
    lane_split = LaneSplit.no_split;
    speeds = no_speeds;
    n_speeds = pos 0;
    mtu = pos 0;
  }

  unfoldable pub new_iface : ℤ → List PortRow → Rows → Ifrow → Option Iface
  unfolding port_parse_admin
  new_iface base_mtu ports rows row = do
    user_cfg ← parse_user_cfg base_mtu zeroed_user_cfg row.user_config row.hw_intf_info
    some (record {
      name = row.name;
      hw_info = parse_hw_info row.hw_intf_info;
      port_admin = (port_parse_admin ports rows row.name).1;
      type = row.type;
      user_cfg = user_cfg;
      op_state = zeroed_state;
      pm_info = parse_pm_info (parse_hw_info row.hw_intf_info) row.pm_info;
      split_parent = none;
      split_children = none;
      n_split_children = 0;
    })

  unfoldable pub add_new_interface : List PortRow → Ifrow → World → Option World
  unfolding shash_find
  add_new_interface ports row w = elim (shash_find w.all_interfaces row.name) [
    | some _ ↦ some w
    | none ↦ (do
      intf ← new_iface w.base_mtu ports w.rows row
      some (record w {
        heap = update_heap w.heap w.next (some intf);
        next = suc w.next;
        all_interfaces = shash_add w.all_interfaces row.name w.next;
      }))
  ]

  -- The body of the loop over the rows that were collected.
  unfoldable pub add_missing : List PortRow → CString × ℕ → World → Option World
  unfolding add_new_interface shash_find
  add_missing ports (name, r) w = elim (shash_find w.all_interfaces name) [
    | some _ ↦ some w
    | none ↦ (do row ← get_row w.rows r; add_new_interface ports row w)
  ]

  unfoldable pub process_parent_child : ℕ → Ifrow → World → Option World
  unfolding find_children
  process_parent_child a row w = elim row.split_parent [
    | some p ↦ (do
      intf ← w.heap a
      parent ← get_row w.rows p
      elim (shash_find w.all_interfaces parent.name) [
        | none ↦ some (store_iface a (record intf { split_parent = none }) w)
        | some b ↦ some (
            store_iface a
              (record intf { split_parent = some b; pm_info = parse_split_pm_info parent.pm_info })
              w)
      ])
    | none ↦ elim row.split_children [
      | [] ↦ some w
      | r ∷ rest ↦ (do
        intf ← w.heap a
        found ← find_children w.rows w.all_interfaces (r ∷ rest)
        some (
            store_iface a
              (record intf { split_children = some found; n_split_children = length (r ∷ rest) })
              w))
    ]
  ]

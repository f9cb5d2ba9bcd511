-- ===== src/Daemon/Tests.antt =====
-- Rounds of src/intfd_ovsdb_if.c on a table of two interfaces, from a cache with one that is there
-- still and one that is gone.
use ops_intfd.Prelude.{
  All, ℕ, pos, ◌≡◌, refl, Bool, true, false, none, some, [], ◌∷◌, is_some-eq, OnSome, arith,
}
use ops_intfd.CString.{bytes, str_eq, is_str, strcmp_is_zero}
use ops_intfd.Schema.Sample.{sample}
use ops_intfd.Database.{Ifrow}
use ops_intfd.Database.Sample.{blank_row}
use ops_intfd.Interface.{Iface}
use ops_intfd.Interface.Sample.{sfp_intf, user_up}
use ops_intfd.Arbiter.{arbiter_init, layer_run, publish_layer, interface_run}
use ops_intfd.Pass.{arbiter_run}
use ops_intfd.Config.State.{Heap}
use ops_intfd.StringMap.Assoc.{assoc_get}
use ops_intfd.Parse.UserCfg.{
  parse_user_cfg, parse_admin, parse_autoneg, parse_pause, parse_duplex, parse_lane_split,
}
use ops_intfd.Parse.Speeds.{parse_user_speeds, parse_user_mtu}
use ops_intfd.Daemon.{
  shash_find, Rows, get_row, PortRow, PortInfo, Feed, World, update_heap, configure,
}
use ops_intfd.Daemon.Ports.{occurs, remove_interface_from_port}
use ops_intfd.Daemon.PortChanges.{delete_first, port_reconfigure}
use ops_intfd.Daemon.Interfaces.{del_old_interface, new_iface}
use ops_intfd.Daemon.InterfaceChanges.{handle_interfaces_config_mods}
use ops_intfd.Daemon.Run.{sync_interfaces, intfd_reconfigure, intfd_run}
use ops_intfd.Daemon.Maps.{has_address}
use ops_intfd.Daemon.Cache.{IsWellFormed}
use ops_intfd.Daemon.Sync.{IsTable, IsSynced}
use ops_intfd.Daemon.Sync.Total.{AllParsed, sync_interfaces_total}
use ops_intfd.Daemon.Round.{intfd_reconfigure-IsSynced, Reachable, Reachable-IsWellFormed}
use ops_intfd.Daemon.Release.{IsOutcome, delete_first-IsDeletion, del_old_interface-dangling}
use ops_intfd.Daemon.Leave.Reset.{IsReset, remove_interface_from_port-IsReset}

abbrev second_row : Ifrow
second_row = record blank_row { name = bytes "2"; is_inserted = true }

abbrev two_rows : Rows
two_rows = (5, blank_row) ∷ (6, second_row) ∷ []

-- A lane of the interface at address 0.
abbrev lane_intf : Iface
lane_intf = record sfp_intf { name = bytes "3"; split_parent = some 0 }

abbrev two_cells : Heap
two_cells = update_heap (update_heap (λ _. none) 1 (some lane_intf)) 0 (some sfp_intf)

abbrev two_cached : World
two_cached = record {
  rows = two_rows;
  all_interfaces = (bytes "1", 0) ∷ (bytes "3", 1) ∷ [];
  heap = two_cells;
  next = 2;
  all_ports = [];
  base_mtu = pos 9216;
  idl_seqno = 0;
  system_configured = true;
  layers = arbiter_init;
}

abbrev quiet_feed : Feed
quiet_feed = record {
  seqno = 1;
  lock_contended = false;
  has_lock = true;
  cur_cfg = some (pos 1);
  subsystems = [];
  ports = [];
  ports_inserted = false;
  ports_deleted = false;
  ports_modified = false;
  admin_modified = false;
  interfaces_modified = false;
}

two_rows-IsTable : IsTable two_rows
unfolding get_row
two_rows-IsTable = (refl, (refl, tt))

abbrev one_row : Rows
one_row = (5, record blank_row { is_modified = false }) ∷ []

one_row-IsTable : IsTable one_row
unfolding get_row
one_row-IsTable = (refl, tt)

two_rows-AllParsed : AllParsed (pos 9216) two_rows
unfolding parse_user_cfg parse_user_speeds parse_user_mtu parse_admin parse_autoneg parse_pause
    parse_duplex parse_lane_split assoc_get
two_rows-AllParsed = (refl, (refl, tt))

two_cached-IsWellFormed : IsWellFormed two_cached
unfolding shash_find has_address strcmp_is_zero
two_cached-IsWellFormed = ((refl, refl, (refl, refl, tt)), λ a. ground arith, λ a h. ground arith)

sync_interfaces_total_example :
    (w' : World) × (sync_interfaces quiet_feed two_cached ≡ some w')
    × IsWellFormed w'
    × IsSynced two_rows w'
sync_interfaces_total_example =
    sync_interfaces_total quiet_feed two_cached two_rows-IsTable two_rows-AllParsed
      two_cached-IsWellFormed

intfd_reconfigure-IsSynced_example :
    OnSome
      (λ (r : Bool × World). IsWellFormed r.1 × IsSynced two_rows r.1)
      (intfd_reconfigure user_up quiet_feed two_cached)
intfd_reconfigure-IsSynced_example =
    intfd_reconfigure-IsSynced user_up quiet_feed two_cached two_rows-IsTable
      two_cached-IsWellFormed refl

abbrev empty_world : World
empty_world = record two_cached {
  rows = [];
  all_interfaces = [];
  heap = λ _. none;
  next = 0;
  system_configured = false;
}

first_round :
    (w' : World) × (intfd_run user_up quiet_feed (record empty_world { rows = one_row }) ≡ some w')
unfolding layer_run publish_layer interface_run arbiter_init arbiter_run strcmp_is_zero is_str
    parse_user_cfg parse_user_speeds port_reconfigure intfd_run new_iface
    handle_interfaces_config_mods assoc_get
first_round = is_some-eq _ refl

abbrev first_round-Reachable : Reachable first_round.0
first_round-Reachable =
    Reachable.round user_up quiet_feed (record empty_world { rows = one_row }) first_round.0
      one_row-IsTable first_round.1
      (Reachable.receive empty_world one_row (Reachable.start empty_world refl (λ a. refl)))

Reachable-IsWellFormed_example : IsWellFormed first_round.0
Reachable-IsWellFormed_example = Reachable-IsWellFormed first_round.0 first_round-Reachable

-- A port that has lost the interface at address 0.
abbrev empty_row : PortRow
empty_row = record { name = bytes "1"; admin = none; interfaces = []; is_modified = true }

abbrev gone_port : PortInfo
gone_port = record { name = bytes "1"; interfaces = 5 ∷ [] }

abbrev with_ports : World
with_ports = record two_cached { all_ports = (bytes "1", gone_port) ∷ (bytes "2", gone_port) ∷ [] }

remove_interface_from_port-IsReset_example :
    (w' : World) × (remove_interface_from_port (empty_row ∷ []) empty_row with_ports
      ≡ some (true, w'))
    × All (IsReset with_ports w') (5 ∷ [])
    × ((s : ℕ) → occurs s (5 ∷ []) ≡ false → get_row w'.rows s ≡ get_row two_rows s)
unfolding shash_find strcmp_is_zero get_row
remove_interface_from_port-IsReset_example =
    remove_interface_from_port-IsReset (empty_row ∷ []) empty_row gone_port with_ports refl refl
      ((blank_row, 0, sfp_intf, refl, refl, refl, (tt, tt)), tt)

delete_first-IsDeletion_example : IsOutcome [] with_ports (delete_first quiet_feed with_ports)
delete_first-IsDeletion_example = delete_first-IsDeletion quiet_feed with_ports

del_old_interface-dangling_example :
    configure 6 1 (del_old_interface (bytes "1") 0 two_cached) ≡ none
unfolding str_eq
del_old_interface-dangling_example =
    del_old_interface-dangling (bytes "1") 6 1 0 two_cached lane_intf refl refl refl refl refl

-- ===== src/Update.antt =====
-- The part of handle_interfaces_config_mods of src/intfd_ovsdb_if.c for a row that was modified:
-- the columns are parsed again, compared with what the interface holds, and what differs is copied.
-- The children of a split interface are not part of it.
pub mod Merge
mod Tests
use ops_intfd.Prelude.{
  ℕ, ℤ, ◌≡◌, Bool, true, false, ◌||◌, not, is_yes, Option, none, some, ◌>>=◌, List, [], ◌∷◌, ◌==◌,
  ◌==ℤ◌, if◌then◌else◌,
}
use ops_intfd.Smap.{Smap}
use ops_intfd.Schema.{
  Idl, UserAdmin, PortAdmin, UserAutoneg, UserPause, UserDuplex, LaneSplit, PmConnector,
  ConnectorStatus, InterfaceType,
}
use ops_intfd.Database.{Ifrow}
use ops_intfd.Interface.{Iface, IntfUserCfg, IntfPmInfo, IntfHwInfo}
use ops_intfd.Parse.UserCfg.{parse_user_cfg}
use ops_intfd.Parse.PmInfo.{parse_pm_info, parse_split_pm_info}
use ops_intfd.Config.State.{Heap}
use ops_intfd.Config.Set.{set_interface_config}

-- The comparisons of the enumerations.
pub UserAdmin-discrete : Discrete UserAdmin
UserAdmin-discrete = hlevel

pub UserAutoneg-discrete : Discrete UserAutoneg
UserAutoneg-discrete = hlevel

pub UserPause-discrete : Discrete UserPause
UserPause-discrete = hlevel

pub UserDuplex-discrete : Discrete UserDuplex
UserDuplex-discrete = hlevel

pub LaneSplit-discrete : Discrete LaneSplit
LaneSplit-discrete = hlevel

pub PmConnector-discrete : Discrete PmConnector
PmConnector-discrete = hlevel

pub ConnectorStatus-discrete : Discrete ConnectorStatus
ConnectorStatus-discrete = hlevel

pub InterfaceType-discrete : Discrete InterfaceType
InterfaceType-discrete = hlevel

-- if (old != new) { old = new; }
abbrev pub assign {ℓ} : {A : Type ℓ} → Discrete A → A → A → A
assign d old new = if is_yes (d old new) then old else new

abbrev pub differs {ℓ} : {A : Type ℓ} → Discrete A → A → A → Bool
differs d old new = not (is_yes (d old new))

abbrev pub assign_int : ℤ → ℤ → ℤ
assign_int old new = if old ==ℤ new then old else new

abbrev pub differs_int : ℤ → ℤ → Bool
differs_int old new = not (old ==ℤ new)

-- The loop over the entries of the two arrays of speeds.
unfoldable pub assign_speeds : List ℕ → List ℕ → List ℕ
assign_speeds (s ∷ old) (t ∷ new) = (if s == t then s else t) ∷ assign_speeds old new
assign_speeds old new = old

unfoldable pub speeds_differ : List ℕ → List ℕ → Bool
speeds_differ (s ∷ old) (t ∷ new) = not (s == t) || speeds_differ old new
speeds_differ old new = false

unfoldable pub assign_user_cfg : IntfUserCfg → IntfUserCfg → IntfUserCfg
unfolding assign_speeds
assign_user_cfg old new = record {
  admin_state = assign UserAdmin-discrete old.admin_state new.admin_state;
  autoneg = assign UserAutoneg-discrete old.autoneg new.autoneg;
  pause = assign UserPause-discrete old.pause new.pause;
  duplex = assign UserDuplex-discrete old.duplex new.duplex;
  lane_split = assign LaneSplit-discrete old.lane_split new.lane_split;
  speeds = assign_speeds old.speeds new.speeds;
  n_speeds = assign_int old.n_speeds new.n_speeds;
  mtu = assign_int old.mtu new.mtu;
}

unfoldable pub user_cfg_differs : IntfUserCfg → IntfUserCfg → Bool
unfolding speeds_differ
user_cfg_differs old new =
    differs UserAdmin-discrete old.admin_state new.admin_state
    || differs UserAutoneg-discrete old.autoneg new.autoneg
    || differs UserPause-discrete old.pause new.pause
    || differs UserDuplex-discrete old.duplex new.duplex
    || differs_int old.mtu new.mtu
    || speeds_differ old.speeds new.speeds
    || differs_int old.n_speeds new.n_speeds
    || differs LaneSplit-discrete old.lane_split new.lane_split

unfoldable pub assign_pm_info : IntfPmInfo → IntfPmInfo → IntfPmInfo
assign_pm_info old new = record {
  op_connector_flags =
      if old.op_connector_flags == new.op_connector_flags
      then old.op_connector_flags
      else new.op_connector_flags;
  connector = assign PmConnector-discrete old.connector new.connector;
  connector_status = assign ConnectorStatus-discrete old.connector_status new.connector_status;
  intf_type = assign InterfaceType-discrete old.intf_type new.intf_type;
}

unfoldable pub pm_info_differs : IntfPmInfo → IntfPmInfo → Bool
pm_info_differs old new =
    differs PmConnector-discrete old.connector new.connector
    || differs ConnectorStatus-discrete old.connector_status new.connector_status
    || differs InterfaceType-discrete old.intf_type new.intf_type
    || not (old.op_connector_flags == new.op_connector_flags)

module _ ⦃idl : Idl⦄ where
  -- The module's description, from the parent's row for a lane.
  abbrev pub read_pm_info : IntfHwInfo → Option Smap → Smap → IntfPmInfo
  read_pm_info hw none own = parse_pm_info hw own
  read_pm_info hw (some parent) own = parse_split_pm_info parent

  abbrev pub updated_iface : Iface → PortAdmin → IntfUserCfg → IntfPmInfo → Iface
  updated_iface intf port_admin new_user_cfg new_pm_info = record intf {
    port_admin = port_admin;
    user_cfg = assign_user_cfg intf.user_cfg new_user_cfg;
    pm_info = assign_pm_info intf.pm_info new_pm_info;
  }

  -- if (cfg_changed) { set_interface_config(ifrow, intf); }
  unfoldable pub reconfigure : Heap → Ifrow → Iface → Bool → Option (Bool × Ifrow × Iface)
  reconfigure heap row intf false = some (false, row, intf)
  reconfigure heap row intf true = do
    (row', intf') ← set_interface_config heap row intf
    some (true, row', intf')

  -- `stack` is what the local variable new_user_cfg held; `parent` is the column pm_info of the
  -- row's parent, if it has one; `port_admin` is what port_parse_admin finds. The flag is
  -- cfg_changed.
  unfoldable pub update_modified :
      Heap
      → ℤ
      → IntfUserCfg
      → PortAdmin
      → Option Smap
      → Ifrow
      → Iface
      → Option (Bool × Ifrow × Iface)
  update_modified heap base_mtu stack port_admin parent row intf = do
    new_user_cfg ← parse_user_cfg base_mtu stack row.user_config row.hw_intf_info
    reconfigure heap row
        (updated_iface intf port_admin new_user_cfg (read_pm_info intf.hw_info parent row.pm_info))
        (user_cfg_differs intf.user_cfg new_user_cfg
          || pm_info_differs intf.pm_info (read_pm_info intf.hw_info parent row.pm_info))

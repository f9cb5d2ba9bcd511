-- ===== src/Interface/Sample.antt =====
-- An interface for the tests and witnesses: a 10 Gb/s optical module, up, with no other wish.
use ops_intfd.Prelude.{false, true, none, ◌∷◌, pos, replicate}
use ops_intfd.CString.{bytes}
use ops_intfd.Schema.{
  UserAdmin, PortAdmin, UserAutoneg, UserPause, UserDuplex, HwPause, HwDuplex, LaneSplit,
  HwConnector, PmConnector, ConnectorStatus, InterfaceType, InterfaceError,
}
use ops_intfd.Interface.{IntfHwInfo, IntfUserCfg, IntfOperState, IntfPmInfo, Iface}

abbrev pub sfp_port : IntfHwInfo
sfp_port = record {
  is_pluggable = true;
  connector = HwConnector.sfp_plus;
  speeds = 10000 ∷ replicate 9 0;
  n_speeds = pos 1;
  max_speed = 10000;
}

abbrev pub user_up : IntfUserCfg
user_up = record {
  admin_state = UserAdmin.up;
  autoneg = UserAutoneg.default;
  pause = UserPause.rxtx;
  duplex = UserDuplex.full;
  lane_split = LaneSplit.no_split;
  speeds = replicate 10 0;
  n_speeds = pos 0;
  mtu = pos 0;
}

abbrev pub fresh_state : IntfOperState
fresh_state = record {
  enabled = false;
  reason = InterfaceError.uninitialized;
  autoneg_reason = InterfaceError.uninitialized;
  duplex = HwDuplex.half;
  pause = HwPause.no_pause;
  autoneg_capability = pos 0;
  autoneg_state = pos 0;
  mtu = pos 0;
  speeds = 0 ∷ replicate 9 0;
  n_speeds = pos 0;
}

abbrev pub sr_module : IntfPmInfo
sr_module = record {
  op_connector_flags = 0x70;
  connector = PmConnector.sfp_sr;
  connector_status = ConnectorStatus.supported;
  intf_type = InterfaceType.gbase10_sr;
}

abbrev pub sfp_intf : Iface
sfp_intf = record {
  name = bytes "1";
  hw_info = sfp_port;
  port_admin = PortAdmin.up;
  type = bytes "system";
  user_cfg = user_up;
  op_state = fresh_state;
  pm_info = sr_module;
  split_parent = none;
  split_children = none;
  n_split_children = 0;
}

-- ===== src/Schema/Sample.antt =====
-- One choice of the strings and numbers of the generated headers, for the tests and witnesses:
-- those that the tests under ops-tests/ write to the database, and others of their kind.
use ops_intfd.CString.{CString, bytes}
use ops_intfd.StringMap.Assoc.{assoc_calls}
use ops_intfd.Schema.{
  Idl, UserAutoneg, UserPause, HwPause, UserDuplex, HwDuplex, LaneSplit, HwConnector, PmConnector,
  ConnectorStatus, InterfaceType, InterfaceError, UserConfigKey, HwConfigKey, HwInfoKey, PmInfoKey,
  ForwardingKey,
}

abbrev user_config_keys : UserConfigKey → CString
user_config_keys UserConfigKey.admin = bytes "admin"
user_config_keys UserConfigKey.autoneg = bytes "autoneg"
user_config_keys UserConfigKey.pause = bytes "pause"
user_config_keys UserConfigKey.duplex = bytes "duplex"
user_config_keys UserConfigKey.speeds = bytes "speeds"
user_config_keys UserConfigKey.mtu = bytes "mtu"
user_config_keys UserConfigKey.lane_split = bytes "lane_split"

abbrev hw_config_keys : HwConfigKey → CString
hw_config_keys HwConfigKey.enable = bytes "enable"
hw_config_keys HwConfigKey.autoneg = bytes "autoneg"
hw_config_keys HwConfigKey.duplex = bytes "duplex"
hw_config_keys HwConfigKey.pause = bytes "pause"
hw_config_keys HwConfigKey.mtu = bytes "mtu"
hw_config_keys HwConfigKey.speeds = bytes "speeds"
hw_config_keys HwConfigKey.interface_type = bytes "interface_type"

abbrev hw_info_keys : HwInfoKey → CString
hw_info_keys HwInfoKey.pluggable = bytes "pluggable"
hw_info_keys HwInfoKey.connector = bytes "connector"
hw_info_keys HwInfoKey.speeds = bytes "speeds"
hw_info_keys HwInfoKey.max_speed = bytes "max_speed"

abbrev pm_info_keys : PmInfoKey → CString
pm_info_keys PmInfoKey.connector = bytes "connector"
pm_info_keys PmInfoKey.connector_status = bytes "connector_status"

abbrev forwarding_keys : ForwardingKey → CString
forwarding_keys ForwardingKey.forwarding = bytes "forwarding"
forwarding_keys ForwardingKey.aggregation_forwarding = bytes "interface_aggregation_forwarding"
forwarding_keys ForwardingKey.aggregation_blocked_reason =
    bytes "interface_aggregation_blocked_reason"

abbrev user_autonegs : UserAutoneg → CString
user_autonegs UserAutoneg.off = bytes "off"
user_autonegs UserAutoneg.on = bytes "on"
user_autonegs UserAutoneg.default = bytes "default"

abbrev user_pauses : UserPause → CString
user_pauses UserPause.no_pause = bytes "none"
user_pauses UserPause.rxtx = bytes "rxtx"
user_pauses UserPause.tx = bytes "tx"
user_pauses UserPause.rx = bytes "rx"

abbrev hw_pauses : HwPause → CString
hw_pauses HwPause.no_pause = bytes "none"
hw_pauses HwPause.rxtx = bytes "rxtx"
hw_pauses HwPause.tx = bytes "tx"
hw_pauses HwPause.rx = bytes "rx"

abbrev user_duplexes : UserDuplex → CString
user_duplexes UserDuplex.half = bytes "half"
user_duplexes UserDuplex.full = bytes "full"

abbrev hw_duplexes : HwDuplex → CString
hw_duplexes HwDuplex.half = bytes "half"
hw_duplexes HwDuplex.full = bytes "full"

abbrev lane_splits : LaneSplit → CString
lane_splits LaneSplit.split = bytes "split"
lane_splits LaneSplit.no_split = bytes "no-split"
lane_splits LaneSplit.default = bytes "default"

abbrev hw_connectors : HwConnector → CString
hw_connectors HwConnector.rj45 = bytes "RJ45"
hw_connectors HwConnector.sfp_plus = bytes "SFP_PLUS"
hw_connectors HwConnector.qsfp_plus = bytes "QSFP_PLUS"
hw_connectors HwConnector.qsfp28 = bytes "QSFP28"
hw_connectors HwConnector.unknown = bytes "unknown"

abbrev connectors : PmConnector → CString
connectors PmConnector.qsfp28_clr4 = bytes "QSFP28_CLR4"
connectors PmConnector.qsfp28_cr4 = bytes "QSFP28_CR4"
connectors PmConnector.qsfp28_psm4 = bytes "QSFP28_PSM4"
connectors PmConnector.qsfp28_cwdm4 = bytes "QSFP28_CWDM4"
connectors PmConnector.qsfp28_lr4 = bytes "QSFP28_LR4"
connectors PmConnector.qsfp28_sr4 = bytes "QSFP28_SR4"
connectors PmConnector.sfp28_cr = bytes "SFP28_CR"
connectors PmConnector.sfp28_lr = bytes "SFP28_LR"
connectors PmConnector.sfp28_sr = bytes "SFP28_SR"
connectors PmConnector.qsfp_cr4 = bytes "QSFP_CR4"
connectors PmConnector.qsfp_lr4 = bytes "QSFP_LR4"
connectors PmConnector.qsfp_sr4 = bytes "QSFP_SR4"
connectors PmConnector.sfp_cx = bytes "SFP_CX"
connectors PmConnector.sfp_dac = bytes "SFP_DAC"
connectors PmConnector.sfp_fc = bytes "SFP_FC"
connectors PmConnector.sfp_lr = bytes "SFP_LR"
connectors PmConnector.sfp_lrm = bytes "SFP_LRM"
connectors PmConnector.sfp_er = bytes "SFP_ER"
connectors PmConnector.sfp_lx = bytes "SFP_LX"
connectors PmConnector.sfp_rj45 = bytes "SFP_RJ45"
connectors PmConnector.sfp_sr = bytes "SFP_SR"
connectors PmConnector.sfp_sx = bytes "SFP_SX"
connectors PmConnector.absent = bytes "absent"
connectors PmConnector.unknown = bytes "unknown"

abbrev connector_statuses : ConnectorStatus → CString
connector_statuses ConnectorStatus.supported = bytes "supported"
connector_statuses ConnectorStatus.unsupported = bytes "unsupported"
connector_statuses ConnectorStatus.unrecognized = bytes "unrecognized"

abbrev interface_types : InterfaceType → CString
interface_types InterfaceType.unknown = bytes "unknown"
interface_types InterfaceType.backplane = bytes "backplane"
interface_types InterfaceType.gbase1_sx = bytes "1GBASE_SX"
interface_types InterfaceType.gbase1_t = bytes "1GBASE_T"
interface_types InterfaceType.gbase10_cr = bytes "10GBASE_CR"
interface_types InterfaceType.gbase10_sr = bytes "10GBASE_SR"
interface_types InterfaceType.gbase10_lr = bytes "10GBASE_LR"
interface_types InterfaceType.gbase10_lrm = bytes "10GBASE_LRM"
interface_types InterfaceType.gbase10_er = bytes "10GBASE_ER"
interface_types InterfaceType.gbase25_cr = bytes "25GBASE_CR"
interface_types InterfaceType.gbase25_sr = bytes "25GBASE_SR"
interface_types InterfaceType.gbase25_lr = bytes "25GBASE_LR"
interface_types InterfaceType.gbase40_cr4 = bytes "40GBASE_CR4"
interface_types InterfaceType.gbase40_sr4 = bytes "40GBASE_SR4"
interface_types InterfaceType.gbase40_lr4 = bytes "40GBASE_LR4"
interface_types InterfaceType.gbase100_cr4 = bytes "100GBASE_CR4"
interface_types InterfaceType.gbase100_sr4 = bytes "100GBASE_SR4"
interface_types InterfaceType.gbase100_lr4 = bytes "100GBASE_LR4"
interface_types InterfaceType.gbase100_clr4 = bytes "100GBASE_CLR4"
interface_types InterfaceType.gbase100_psm4 = bytes "100GBASE_PSM4"
interface_types InterfaceType.gbase100_cwdm4 = bytes "100GBASE_CWDM4"

abbrev errors : InterfaceError → CString
errors InterfaceError.uninitialized = bytes "uninitialized"
errors InterfaceError.admin_down = bytes "admin_down"
errors InterfaceError.module_missing = bytes "module_missing"
errors InterfaceError.module_unrecognized = bytes "module_unrecognized"
errors InterfaceError.module_unsupported = bytes "module_unsupported"
errors InterfaceError.lanes_split = bytes "lanes_split"
errors InterfaceError.lanes_not_split = bytes "lanes_not_split"
errors InterfaceError.invalid_mtu = bytes "invalid_mtu"
errors InterfaceError.invalid_speeds = bytes "invalid_speeds"
errors InterfaceError.autoneg_not_supported = bytes "autoneg_not_supported"
errors InterfaceError.autoneg_required = bytes "autoneg_required"
errors InterfaceError.port_admin_down = bytes "port_admin_down"
errors InterfaceError.ok = bytes "ok"
errors InterfaceError.other = bytes "other"

instance abbrev pub sample : Idl
sample = record {
  smap_calls = assoc_calls;
  user_config_key = user_config_keys;
  hw_config_key = hw_config_keys;
  hw_info_key = hw_info_keys;
  pm_info_key = pm_info_keys;
  forwarding_key = forwarding_keys;
  bond_state_key = bytes "state";
  max_transmission_unit_key = bytes "max_transmission_unit";
  admin_up = bytes "up";
  admin_down = bytes "down";
  admin_state_up = bytes "up";
  admin_state_down = bytes "down";
  link_state_up = bytes "up";
  link_state_down = bytes "down";
  speeds_default = bytes "auto";
  mtu_default = bytes "auto";
  user_autoneg_name = user_autonegs;
  user_pause_name = user_pauses;
  user_duplex_name = user_duplexes;
  lane_split_name = lane_splits;
  pluggable_true = bytes "true";
  hw_connector_name = hw_connectors;
  connector_name = connectors;
  connector_status_name = connector_statuses;
  enable_true = bytes "true";
  enable_false = bytes "false";
  hw_autoneg_on = bytes "on";
  hw_autoneg_off = bytes "off";
  hw_pause_name = hw_pauses;
  hw_duplex_name = hw_duplexes;
  interface_type_name = interface_types;
  error_name = errors;
  bond_up = bytes "up";
  forwarding_true = bytes "true";
  forwarding_false = bytes "false";
  protocol_lacp = bytes "lacp";
  type_internal = bytes "internal";
  type_vlansubint = bytes "vlansubint";
  type_loopback = bytes "loopback";
  zero_error = InterfaceError.ok;
  zero_duplex = HwDuplex.half;
  zero_pause = HwPause.no_pause;
  proto_none = 1;
  proto_lacp = 0;
  layer_aggregation = 0;
}

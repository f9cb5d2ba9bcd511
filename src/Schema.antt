-- ===== src/Schema.antt =====
-- The enumerations of the database schema that the daemon uses, and the strings of the generated
-- headers vswitch-idl.h and openswitch-idl.h, which are not part of the repository: a record of
-- strings, with the calls of the string maps, that the other modules take as a parameter. The macros of one family are one function,
-- so INTERFACE_HW_INTF_CONFIG_MAP_DUPLEX_HALF is `hw_duplex_name HwDuplex.half`.
pub mod Sample
pub mod Distinct
use ops_intfd.Prelude.{ℕ}
use ops_intfd.CString.{CString}
use ops_intfd.StringMap.{SmapCalls}

-- enum ovsrec_interface_user_config_admin_e
pub data UserAdmin : Type 0 where
  up down : UserAdmin

-- enum ovsrec_port_config_admin_e
pub data PortAdmin : Type 0 where
  up down : PortAdmin

-- enum ovsrec_interface_user_config_autoneg_e
pub data UserAutoneg : Type 0 where
  off on default : UserAutoneg

-- enum ovsrec_interface_user_config_pause_e
pub data UserPause : Type 0 where
  no_pause rxtx tx rx : UserPause

-- enum ovsrec_interface_hw_intf_config_pause_e
pub data HwPause : Type 0 where
  no_pause rxtx tx rx : HwPause

-- enum ovsrec_interface_user_config_duplex_e
pub data UserDuplex : Type 0 where
  half full : UserDuplex

-- enum ovsrec_interface_hw_intf_config_duplex_e
pub data HwDuplex : Type 0 where
  half full : HwDuplex

-- enum ovsrec_interface_user_config_lane_split_e
pub data LaneSplit : Type 0 where
  split no_split default : LaneSplit

-- enum ovsrec_interface_hw_intf_connector_e
pub data HwConnector : Type 0 where
  rj45 sfp_plus qsfp_plus qsfp28 unknown : HwConnector

-- enum ovsrec_interface_pm_info_connector_e
pub data PmConnector : Type 0 where
  qsfp28_clr4 qsfp28_cr4 qsfp28_psm4 qsfp28_cwdm4 qsfp28_lr4 qsfp28_sr4 : PmConnector
  sfp28_cr sfp28_lr sfp28_sr qsfp_cr4 qsfp_lr4 qsfp_sr4 : PmConnector
  sfp_cx sfp_dac sfp_fc sfp_lr sfp_lrm sfp_er sfp_lx sfp_rj45 sfp_sr sfp_sx : PmConnector
  absent unknown : PmConnector

-- enum ovsrec_interface_pm_info_connector_status_e
pub data ConnectorStatus : Type 0 where
  supported unsupported unrecognized : ConnectorStatus

-- enum ovsrec_interface_hw_intf_config_interface_type_e; `gbase10_sr` is 10GBASE_SR.
pub data InterfaceType : Type 0 where
  unknown backplane gbase1_sx gbase1_t : InterfaceType
  gbase10_cr gbase10_sr gbase10_lr gbase10_lrm gbase10_er : InterfaceType
  gbase25_cr gbase25_sr gbase25_lr gbase40_cr4 gbase40_sr4 gbase40_lr4 : InterfaceType
  gbase100_cr4 gbase100_sr4 gbase100_lr4 gbase100_clr4 : InterfaceType
  gbase100_psm4 gbase100_cwdm4 : InterfaceType

-- enum ovsrec_interface_error_e, with PORT_ERROR_ADMIN_DOWN; `other` stands for the values that
-- the switch of intfd_get_error_str does not name.
pub data InterfaceError : Type 0 where
  uninitialized admin_down module_missing module_unrecognized : InterfaceError
  module_unsupported lanes_split lanes_not_split invalid_mtu invalid_speeds : InterfaceError
  autoneg_not_supported autoneg_required port_admin_down ok other : InterfaceError

-- Keys of the columns that the daemon reads and writes.
pub data UserConfigKey : Type 0 where
  admin autoneg pause duplex speeds mtu lane_split : UserConfigKey

pub data HwConfigKey : Type 0 where
  enable autoneg duplex pause mtu speeds interface_type : HwConfigKey

pub data HwInfoKey : Type 0 where
  pluggable connector speeds max_speed : HwInfoKey

pub data PmInfoKey : Type 0 where
  connector connector_status : PmInfoKey

-- INTERFACE_FORWARDING_STATE_MAP_...
pub data ForwardingKey : Type 0 where
  forwarding aggregation_forwarding aggregation_blocked_reason : ForwardingKey

pub record Idl : Type 0 where
  -- the string maps
  pub smap_calls : SmapCalls
  -- keys
  pub user_config_key : UserConfigKey → CString
  pub hw_config_key : HwConfigKey → CString
  pub hw_info_key : HwInfoKey → CString
  pub pm_info_key : PmInfoKey → CString
  pub forwarding_key : ForwardingKey → CString
  pub bond_state_key : CString
  pub max_transmission_unit_key : CString
  -- values
  pub admin_up : CString
  pub admin_down : CString
  pub admin_state_up : CString
  pub admin_state_down : CString
  pub link_state_up : CString
  pub link_state_down : CString
  pub speeds_default : CString
  pub mtu_default : CString
  pub user_autoneg_name : UserAutoneg → CString
  pub user_pause_name : UserPause → CString
  pub user_duplex_name : UserDuplex → CString
  pub lane_split_name : LaneSplit → CString
  pub pluggable_true : CString
  pub hw_connector_name : HwConnector → CString
  pub connector_name : PmConnector → CString
  pub connector_status_name : ConnectorStatus → CString
  pub enable_true : CString
  pub enable_false : CString
  pub hw_autoneg_on : CString
  pub hw_autoneg_off : CString
  pub hw_pause_name : HwPause → CString
  pub hw_duplex_name : HwDuplex → CString
  pub interface_type_name : InterfaceType → CString
  pub error_name : InterfaceError → CString
  pub bond_up : CString
  pub forwarding_true : CString
  pub forwarding_false : CString
  pub protocol_lacp : CString
  -- the column Interface:type
  pub type_internal : CString
  pub type_vlansubint : CString
  pub type_loopback : CString
  -- what zeroed memory reads as
  pub zero_error : InterfaceError
  pub zero_duplex : HwDuplex
  pub zero_pause : HwPause
  -- values of the enumerations of the arbiter, which the code compares by `<`
  pub proto_none : ℕ
  pub proto_lacp : ℕ
  pub layer_aggregation : ℕ

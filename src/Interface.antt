-- ===== src/Interface.antt =====
-- The structures of src/intfd_ovsdb_if.c that hold what the daemon knows of an interface, and the
-- constants of include/intfd.h. An address is a number; a null pointer is `none`.
pub mod Sample
use ops_intfd.Prelude.{ℕ, ℤ, pos, negsuc, Bool, Option, List}
use ops_intfd.CString.{CString}
use ops_intfd.Schema.{
  UserAdmin, PortAdmin, UserAutoneg, UserPause, HwPause, UserDuplex, HwDuplex, LaneSplit,
  HwConnector, PmConnector, ConnectorStatus, InterfaceType, InterfaceError,
}

abbrev pub minus_one : ℤ
minus_one = negsuc 0

abbrev pub min_allowed_user_specified_mtu : ℕ
min_allowed_user_specified_mtu = 576

abbrev pub default_mtu : ℕ
default_mtu = 1500

abbrev pub max_speeds_allowed : ℕ
max_speeds_allowed = 10

abbrev pub autoneg_state_invalid : ℤ
autoneg_state_invalid = negsuc 0

abbrev pub autoneg_state_disabled : ℤ
autoneg_state_disabled = pos 0

abbrev pub autoneg_state_enabled : ℤ
autoneg_state_enabled = pos 1

abbrev pub autoneg_capability_unsupported : ℤ
autoneg_capability_unsupported = pos 10

abbrev pub autoneg_capability_optional : ℤ
autoneg_capability_optional = pos 11

abbrev pub autoneg_capability_required : ℤ
autoneg_capability_required = pos 12

-- struct intf_hw_info; the arrays `speeds` have ten entries.
pub record IntfHwInfo : Type 0 where
  pub is_pluggable : Bool
  pub connector : HwConnector
  pub speeds : List ℕ
  pub n_speeds : ℤ
  pub max_speed : ℕ

-- struct intf_user_cfg
pub record IntfUserCfg : Type 0 where
  pub admin_state : UserAdmin
  pub autoneg : UserAutoneg
  pub pause : UserPause
  pub duplex : UserDuplex
  pub lane_split : LaneSplit
  pub speeds : List ℕ
  pub n_speeds : ℤ
  pub mtu : ℤ

-- struct intf_oper_state
pub record IntfOperState : Type 0 where
  pub enabled : Bool
  pub reason : InterfaceError
  pub autoneg_reason : InterfaceError
  pub duplex : HwDuplex
  pub pause : HwPause
  pub autoneg_capability : ℤ
  pub autoneg_state : ℤ
  pub mtu : ℤ
  pub speeds : List ℕ
  pub n_speeds : ℤ

-- struct intf_pm_info
pub record IntfPmInfo : Type 0 where
  pub op_connector_flags : ℕ
  pub connector : PmConnector
  pub connector_status : ConnectorStatus
  pub intf_type : InterfaceType

-- struct iface: `split_children` points to an array of pointers.
pub record Iface : Type 0 where
  pub name : CString
  pub hw_info : IntfHwInfo
  pub port_admin : PortAdmin
  pub type : CString
  pub user_cfg : IntfUserCfg
  pub op_state : IntfOperState
  pub pm_info : IntfPmInfo
  pub split_parent : Option ℕ
  pub split_children : Option (List (Option ℕ))
  pub n_split_children : ℕ

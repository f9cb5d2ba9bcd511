-- ===== src/Utils.antt =====
-- src/intfd_utils.c: the strings of the enumerations. intfd_print_smap only logs.
use ops_intfd.CString.{CString, bytes}
use ops_intfd.Schema.{Idl, LaneSplit, InterfaceError, InterfaceType}

module _ ⦃idl : Idl⦄ where
  open idl use {lane_split_name, error_name, interface_type_name}

  unfoldable pub get_lane_split_str : LaneSplit → CString
  get_lane_split_str LaneSplit.no_split = lane_split_name LaneSplit.no_split
  get_lane_split_str LaneSplit.split = lane_split_name LaneSplit.split
  get_lane_split_str LaneSplit.default = bytes "unset by user"

  unfoldable pub get_error_str : InterfaceError → CString
  get_error_str InterfaceError.other = bytes "???"
  get_error_str reason = error_name reason

  -- 100GBASE-CLR4, -PSM4 and -CWDM4 have no case of their own in the switch.
  unfoldable pub get_intf_type_str : InterfaceType → CString
  get_intf_type_str InterfaceType.gbase100_clr4 = bytes "unknown"
  get_intf_type_str InterfaceType.gbase100_psm4 = bytes "unknown"
  get_intf_type_str InterfaceType.gbase100_cwdm4 = bytes "unknown"
  get_intf_type_str intf_type = interface_type_name intf_type

-- ===== src/Config/State.antt =====
-- src/intfd_ovsdb_if.c: calc_intf_op_state_n_reason, which decides whether an interface is enabled
-- and why not, and the functions set_op_state_mtu, _pause and _duplex.
use ops_intfd.Prelude.{
  ℕ, ℤ, pos, ◌==ℤ◌, Bool, true, false, ◌&&◌, ◌||◌, Option, none, some, ◌>>=◌, ◌==◌, if◌then◌else◌,
}
use ops_intfd.CString.{str_eq}
use ops_intfd.Schema.{
  Idl, UserAdmin, PortAdmin, UserPause, HwPause, UserDuplex, HwDuplex, LaneSplit, PmConnector,
  ConnectorStatus, InterfaceError,
}
use ops_intfd.Interface.{Iface, minus_one, default_mtu, autoneg_state_invalid}
use ops_intfd.Connector.{pm_unsupported_flag}

-- The interfaces by their address; `none` is memory that is not allocated, or freed.
abbrev pub Heap : Type 0
Heap = ℕ → Option Iface

-- What reading `intf->split_parent->user_cfg.lane_split` would do.
pub data Parent : Type 0 where
  orphan dangling : Parent
  lane : LaneSplit → Parent

abbrev pub read_parent : Heap → Option ℕ → Parent
read_parent heap none = orphan
read_parent heap (some address) = elim (heap address) [
  | none ↦ dangling
  | some parent ↦ lane parent.user_cfg.lane_split
]

abbrev pub is_user_down : UserAdmin → Bool
is_user_down UserAdmin.down = true
is_user_down UserAdmin.up = false

abbrev pub is_port_down : PortAdmin → Bool
is_port_down PortAdmin.down = true
is_port_down PortAdmin.up = false

abbrev pub is_split : LaneSplit → Bool
is_split LaneSplit.split = true
is_split _ = false

abbrev pub is_no_split : LaneSplit → Bool
is_no_split LaneSplit.no_split = true
is_no_split _ = false

abbrev pub is_absent : PmConnector → Bool
is_absent PmConnector.absent = true
is_absent _ = false

abbrev pub is_unrecognized : ConnectorStatus → Bool
is_unrecognized ConnectorStatus.unrecognized = true
is_unrecognized _ = false

abbrev pub is_unsupported : ConnectorStatus → Bool
is_unsupported ConnectorStatus.unsupported = true
is_unsupported _ = false

abbrev pub has_children : Iface → Bool
has_children intf = elim intf.split_children [ none ↦ false | some _ ↦ true ]

-- The part of the chain of tests that is common to interfaces with and without a parent.
unfoldable pub calc_unsplit : Iface → Bool × InterfaceError
calc_unsplit intf =
    let op = intf.op_state in
    let pm = intf.pm_info in
    if is_user_down intf.user_cfg.admin_state
    then (false, InterfaceError.admin_down)
    else if is_absent pm.connector
    then (false, InterfaceError.module_missing)
    else if is_unrecognized pm.connector_status
    then (false, InterfaceError.module_unrecognized)
    else if is_unsupported pm.connector_status || pm.op_connector_flags == pm_unsupported_flag
    then (false, InterfaceError.module_unsupported)
    else if op.mtu ==ℤ minus_one
    then (false, InterfaceError.invalid_mtu)
    else if op.n_speeds ==ℤ minus_one
    then (false, InterfaceError.invalid_speeds)
    else if op.autoneg_state ==ℤ autoneg_state_invalid
    then (false, op.autoneg_reason)
    else if is_port_down intf.port_admin
    then (false, InterfaceError.port_admin_down)
    else (true, InterfaceError.ok)

module _ ⦃idl : Idl⦄ where
  open idl use {type_internal, type_vlansubint, type_loopback}

  -- The types of interface that have no hardware behind them.
  abbrev pub is_virtual : Iface → Bool
  is_virtual intf =
      str_eq intf.type type_internal
      || str_eq intf.type type_vlansubint
      || str_eq intf.type type_loopback

  -- The state and the reason; `none` is a read through a dangling pointer.
  unfoldable pub calc_state : Parent → Iface → Option (Bool × InterfaceError)
  calc_state parent intf =
      if is_virtual intf
      then some (
          if is_user_down intf.user_cfg.admin_state
          then (false, InterfaceError.admin_down)
          else if is_port_down intf.port_admin
          then (false, InterfaceError.port_admin_down)
          else (true, InterfaceError.ok))
      else if has_children intf && is_split intf.user_cfg.lane_split
      then some (false, InterfaceError.lanes_split)
      else elim parent [
        | orphan ↦ some (calc_unsplit intf)
        | dangling ↦ none
        | lane parent_split ↦ some (
            if is_no_split parent_split
            then (false, InterfaceError.lanes_not_split)
            else calc_unsplit intf)
      ]

  unfoldable pub calc_intf_op_state_n_reason : Heap → Iface → Option Iface
  calc_intf_op_state_n_reason heap intf = do
    (enabled, reason) ← calc_state (read_parent heap intf.split_parent) intf
    some (record intf { op_state = record intf.op_state { enabled = enabled; reason = reason } })

unfoldable pub op_mtu : ℤ → ℤ
op_mtu mtu = if mtu ==ℤ minus_one then minus_one else if mtu ==ℤ pos 0 then pos default_mtu else mtu

unfoldable pub set_op_state_mtu : Iface → Iface
unfolding op_mtu
set_op_state_mtu intf = record intf {
  op_state = record intf.op_state { mtu = op_mtu intf.user_cfg.mtu };
}

abbrev pub hw_pause : UserPause → HwPause
hw_pause UserPause.rxtx = HwPause.rxtx
hw_pause UserPause.tx = HwPause.tx
hw_pause UserPause.rx = HwPause.rx
hw_pause UserPause.no_pause = HwPause.no_pause

unfoldable pub set_op_state_pause : Iface → Iface
set_op_state_pause intf = record intf {
  op_state = record intf.op_state { pause = hw_pause intf.user_cfg.pause };
}

abbrev pub hw_duplex : UserDuplex → HwDuplex
hw_duplex UserDuplex.half = HwDuplex.half
hw_duplex UserDuplex.full = HwDuplex.full

unfoldable pub set_op_state_duplex : Iface → Iface
set_op_state_duplex intf = record intf {
  op_state = record intf.op_state { duplex = hw_duplex intf.user_cfg.duplex };
}

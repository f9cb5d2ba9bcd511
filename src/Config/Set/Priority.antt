-- ===== src/Config/Set/Priority.antt =====
-- The table of states and reasons in the comment above calc_intf_op_state_n_reason of
-- src/intfd_ovsdb_if.c, and that set_interface_config follows it.
use ops_intfd.Prelude.{
  ◌==ℤ◌, ◌==◌, ◌≡◌, refl, ◌≢◌, Bool, true, false, ◌&&◌, ◌||◌, not, Option, none, some, List, [],
  ◌∷◌, arith, if◌then◌else◌,
}
use ops_intfd.Schema.{Idl, UserAutoneg, InterfaceError}
use ops_intfd.Database.{Ifrow}
use ops_intfd.Interface.{Iface, IntfOperState, minus_one}
use ops_intfd.Connector.{pm_unsupported_flag}
use ops_intfd.CString.{CString}
use ops_intfd.Utils.{get_error_str}
use ops_intfd.Config.Capability.{is_autoneg}
use ops_intfd.Connector.Kinds.{HasOwnFlags}
use ops_intfd.Config.Capability.Table.{needs_autoneg}
use ops_intfd.Config.State.{
  Heap, Parent, dangling, lane, read_parent, has_children, is_split, is_no_split, is_user_down,
  is_port_down, is_absent, is_unrecognized, is_unsupported, is_virtual, calc_unsplit, calc_state,
  calc_intf_op_state_n_reason, set_op_state_pause, set_op_state_duplex,
}
use ops_intfd.Config.HwConfig.{set_intf_hw_config_in_db}
use ops_intfd.Config.Set.{set_link, set_interface_config}
use ops_intfd.Config.Set.Outcome.{
  IsCount, IsPrepared, prepared_op, prepared-eq, prepared_op-IsPrepared,
}

abbrev pub is_lane_unsplit : Parent → Bool
is_lane_unsplit (lane parent_split) = is_no_split parent_split
is_lane_unsplit _ = false

-- The rows of the table, from the highest priority on, each with its condition on the
-- configuration; the state of the port, which the table does not list, comes last.
abbrev pub reasons : Parent → Iface → List (Bool × InterfaceError)
reasons parent intf =
    let user = intf.user_cfg in
    let pm = intf.pm_info in
    let needs = needs_autoneg pm.connector in
    (has_children intf && is_split user.lane_split, InterfaceError.lanes_split)
    ∷ (is_lane_unsplit parent, InterfaceError.lanes_not_split)
    ∷ (is_user_down user.admin_state, InterfaceError.admin_down)
    ∷ (is_absent pm.connector, InterfaceError.module_missing)
    ∷ (is_unrecognized pm.connector_status, InterfaceError.module_unrecognized)
    ∷ (
      is_unsupported pm.connector_status || pm.op_connector_flags == pm_unsupported_flag,
      InterfaceError.module_unsupported,
    )
    ∷ (user.mtu ==ℤ minus_one, InterfaceError.invalid_mtu)
    ∷ (user.n_speeds ==ℤ minus_one, InterfaceError.invalid_speeds)
    ∷ (needs && is_autoneg user.autoneg UserAutoneg.off, InterfaceError.autoneg_required)
    ∷ (not needs && is_autoneg user.autoneg UserAutoneg.on, InterfaceError.autoneg_not_supported)
    ∷ (is_port_down intf.port_admin, InterfaceError.port_admin_down)
    ∷ []

-- Enabled if no row applies; else disabled for the first that does.
abbrev pub first_reason : List (Bool × InterfaceError) → Bool × InterfaceError
first_reason [] = (true, InterfaceError.ok)
first_reason ((applies, reason) ∷ rest) = if applies then (false, reason) else first_reason rest

calc_unsplit-prepared :
    (intf : Iface) (op : IntfOperState) (parent : Parent)
    → IsPrepared intf.user_cfg intf.pm_info.connector op
    → (has_children intf && is_split intf.user_cfg.lane_split) ≡ false
    → is_lane_unsplit parent ≡ false
    → calc_unsplit (record intf { op_state = op }) ≡ first_reason (reasons parent intf)
unfolding calc_unsplit
calc_unsplit-prepared intf op parent p c l =
    ground (arith, c, l, p.mtu, p.bad_speeds, p.good_speeds, p.autoneg)

module _ ⦃idl : Idl⦄ where
  calc_state-prepared :
      (intf : Iface) (op : IntfOperState) (parent : Parent)
      → IsPrepared intf.user_cfg intf.pm_info.connector op
      → is_virtual intf ≡ false
      → parent ≢ dangling
      → calc_state parent (record intf { op_state = op })
        ≡ some (first_reason (reasons parent intf))
  unfolding calc_state
  calc_state-prepared intf op parent p v d = ground (arith, calc_unsplit-prepared intf op parent p)

  -- The error that is written to the row.
  abbrev error_of : Bool × InterfaceError → Option CString
  error_of (enabled, reason) = if enabled then none else some (get_error_str reason)

  -- The last two steps, from the state and reason on.
  unfoldable pub finished : Iface → IntfOperState → Bool × InterfaceError → Iface
  finished intf op (enabled, reason) =
      set_link (record intf { op_state = record op { enabled = enabled; reason = reason } })

  pub finished-state :
      (intf : Iface) (op : IntfOperState) (expected : Bool × InterfaceError)
      → ((finished intf op expected).op_state.enabled ≡ expected.0)
        × ((finished intf op expected).op_state.reason ≡ expected.1)
  unfolding finished set_op_state_pause set_op_state_duplex
  finished-state intf op (true, reason) = (refl, refl)
  finished-state intf op (false, reason) = (refl, refl)

  written-error :
      (row : Ifrow) (intf : Iface) (op : IntfOperState) (expected : Bool × InterfaceError)
      → (set_intf_hw_config_in_db row (finished intf op expected)).error ≡ error_of expected
  unfolding finished set_intf_hw_config_in_db set_op_state_pause set_op_state_duplex
  written-error row intf op (true, reason) = refl
  written-error row intf op (false, reason) = refl

  pub set_interface_config-eq :
      (heap : Heap) (row : Ifrow) (intf : Iface)
      → is_virtual intf ≡ false
      → read_parent heap intf.split_parent ≢ dangling
      → HasOwnFlags intf.pm_info
      → IsCount intf.user_cfg.n_speeds
      → let expected = first_reason (reasons (read_parent heap intf.split_parent) intf) in
        let done = finished intf (prepared_op intf) expected in
        set_interface_config heap row intf ≡ some (set_intf_hw_config_in_db row done, done)
  unfolding set_interface_config calc_intf_op_state_n_reason finished
  set_interface_config-eq heap row intf v d h n =
      let parent = read_parent heap intf.split_parent in
      rw
        (
          prepared-eq intf,
          calc_state-prepared intf (prepared_op intf) parent (prepared_op-IsPrepared intf h n) v d,
        )
        refl

  -- For an interface that is not of a virtual type, whose parent, if it has one, is allocated, whose
  -- module has the flags of its connector and whose count of speeds is -1 or a number:
  -- set_interface_config does not fault, the state and reason that it stores are those of the first
  -- row of the documented table that applies to the configuration, where the table has one row more
  -- at its end, which its comment leaves out, for the administrative state of the port; and the row
  -- of the interface gets that reason as its error, or none if no row applies.
  pub set_interface_config-reasons :
      (heap : Heap) (row : Ifrow) (intf : Iface)
      → is_virtual intf ≡ false
      → read_parent heap intf.split_parent ≢ dangling
      → HasOwnFlags intf.pm_info
      → IsCount intf.user_cfg.n_speeds
      → let expected = first_reason (reasons (read_parent heap intf.split_parent) intf) in
        (result : Ifrow × Iface) × (set_interface_config heap row intf ≡ some result)
        × (result.1.op_state.enabled ≡ expected.0)
        × (result.1.op_state.reason ≡ expected.1)
        × (result.0.error ≡ error_of expected)
  set_interface_config-reasons heap row intf v d h n =
      let op = prepared_op intf in
      let expected = first_reason (reasons (read_parent heap intf.split_parent) intf) in
      let done = finished intf op expected in
      (
        (set_intf_hw_config_in_db row done, done),
        set_interface_config-eq heap row intf v d h n,
        (finished-state intf op expected).0,
        (finished-state intf op expected).1,
        written-error row intf op expected,
      )

-- ===== src/Config/Capability.antt =====
-- src/intfd_ovsdb_if.c: validate_n_set_interface_capability, which settles autonegotiation and
-- speeds from the module and the user's wishes, with intfd_highest_speed.
pub mod Table
use ops_intfd.Prelude.{
  ℕ, zero, suc, ℤ, pos, ◌==ℤ◌, ltbℤ, Bool, true, false, ◌&&◌, ◌||◌, not, List, [], ◌∷◌, ltb, set,
  get_or, if◌then◌else◌,
}
use ops_intfd.Schema.{UserAutoneg, PmConnector, InterfaceError}
use ops_intfd.Interface.{
  IntfHwInfo, IntfUserCfg, IntfPmInfo, IntfOperState, Iface, minus_one, autoneg_state_invalid,
  autoneg_state_disabled, autoneg_state_enabled, autoneg_capability_unsupported,
  autoneg_capability_optional, autoneg_capability_required,
}
use ops_intfd.Connector.{
  connector_is_sfp, connector_is_sfp_plus_10g, connector_is_sfp28_25g, connector_is_qsfp_plus_40g,
  connector_is_qsfp28_100g,
}

-- The loop of intfd_highest_speed over the entries after the first.
unfoldable pub highest_from : ℕ → ℕ → List ℕ → ℕ
highest_from speed zero speeds = speed
highest_from speed (suc n) [] = speed
highest_from speed (suc n) (s ∷ speeds) = highest_from (if ltb speed s then s else speed) n speeds

unfoldable pub highest_speed : List ℕ → ℤ → ℕ
unfolding highest_from
highest_speed (speed ∷ speeds) (pos (suc n)) = highest_from speed n speeds
highest_speed speeds num_speeds = 0

abbrev pub is_autoneg : UserAutoneg → UserAutoneg → Bool
is_autoneg UserAutoneg.off UserAutoneg.off = true
is_autoneg UserAutoneg.on UserAutoneg.on = true
is_autoneg UserAutoneg.default UserAutoneg.default = true
is_autoneg _ _ = false

-- connector == INTERFACE_PM_INFO_CONNECTOR_SFP28_CR, and so on
abbrev pub requires_if : Bool → ℤ
requires_if true = autoneg_capability_required
requires_if false = autoneg_capability_unsupported

abbrev pub is_sfp28_cr : PmConnector → Bool
is_sfp28_cr PmConnector.sfp28_cr = true
is_sfp28_cr _ = false

abbrev pub is_qsfp_cr4 : PmConnector → Bool
is_qsfp_cr4 PmConnector.qsfp_cr4 = true
is_qsfp_cr4 _ = false

abbrev pub is_qsfp28_cr4 : PmConnector → Bool
is_qsfp28_cr4 PmConnector.qsfp28_cr4 = true
is_qsfp28_cr4 _ = false

-- One speed, in the first entry, with its capability.
abbrev pub with_speed : IntfOperState → ℤ → ℕ → IntfOperState
with_speed op capability speed = record op {
  autoneg_capability = capability;
  speeds = set op.speeds 0 speed;
  n_speeds = pos 1;
}

-- The first half: what the module supports.
unfoldable pub module_capability : IntfPmInfo → IntfOperState → IntfOperState
module_capability pm op =
    if connector_is_sfp_plus_10g pm.op_connector_flags
    then with_speed op autoneg_capability_unsupported 10000
    else if connector_is_sfp28_25g pm.op_connector_flags
    then with_speed op (requires_if (is_sfp28_cr pm.connector)) 25000
    else if connector_is_sfp pm.op_connector_flags
    then with_speed op autoneg_capability_required 1000
    else if connector_is_qsfp_plus_40g pm.op_connector_flags
    then with_speed op (requires_if (is_qsfp_cr4 pm.connector)) 40000
    else if connector_is_qsfp28_100g pm.op_connector_flags
    then with_speed op (requires_if (is_qsfp28_cr4 pm.connector)) 100000
    else record op {
      autoneg_capability = autoneg_capability_required;
      speeds = set op.speeds 0 0;
      n_speeds = pos 0;
    }

abbrev autoneg_error : IntfOperState → InterfaceError → IntfOperState
autoneg_error op reason = record op {
  autoneg_state = autoneg_state_invalid;
  autoneg_reason = reason;
}

-- memcpy of the user's array, with its count
abbrev use_user_speeds : IntfUserCfg → IntfOperState → IntfOperState
use_user_speeds user op = record op {
  autoneg_state = autoneg_state_enabled;
  speeds = user.speeds;
  n_speeds = user.n_speeds;
}

abbrev use_first_speed : IntfUserCfg → IntfOperState → IntfOperState
use_first_speed user op = record op {
  autoneg_state = autoneg_state_disabled;
  speeds = set op.speeds 0 (get_or user.speeds 0 0);
  n_speeds = pos 1;
}

-- The second half: the user's autonegotiation and speeds override.
unfoldable pub override_capability : IntfHwInfo → IntfUserCfg → IntfOperState → IntfOperState
override_capability hw user before =
    let op = record before { autoneg_reason = InterfaceError.uninitialized } in
    let capability = op.autoneg_capability in
    if is_autoneg user.autoneg UserAutoneg.on && user.n_speeds ==ℤ pos 0
    then (if capability ==ℤ autoneg_capability_unsupported
        then autoneg_error op InterfaceError.autoneg_not_supported
        else record op { autoneg_state = autoneg_state_enabled })
    else if is_autoneg user.autoneg UserAutoneg.off && user.n_speeds ==ℤ pos 0
    then (if capability ==ℤ autoneg_capability_required
        then autoneg_error op InterfaceError.autoneg_required
        else if capability ==ℤ autoneg_capability_optional
        then record op {
          autoneg_state = autoneg_state_disabled;
          speeds = set op.speeds 0 (highest_speed hw.speeds hw.n_speeds);
          n_speeds = pos 1;
        }
        else record op { autoneg_state = autoneg_state_disabled })
    else if is_autoneg user.autoneg UserAutoneg.default && ltbℤ (pos 0) user.n_speeds
    then (if not (capability ==ℤ autoneg_capability_unsupported)
        then use_user_speeds user op
        else use_first_speed user op)
    else if is_autoneg user.autoneg UserAutoneg.on && ltbℤ (pos 0) user.n_speeds
    then (if capability ==ℤ autoneg_capability_required
          || capability ==ℤ autoneg_capability_optional
        then use_user_speeds user op
        else autoneg_error op InterfaceError.autoneg_not_supported)
    else if is_autoneg user.autoneg UserAutoneg.off && ltbℤ (pos 0) user.n_speeds
    then (if capability ==ℤ autoneg_capability_required
        then autoneg_error op InterfaceError.autoneg_required
        else use_first_speed user op)
    else if capability ==ℤ autoneg_capability_unsupported
    then record op { autoneg_state = autoneg_state_disabled }
    else record op { autoneg_state = autoneg_state_enabled }

unfoldable pub validate_capability : Iface → Iface
validate_capability intf =
    let user = intf.user_cfg in
    let op = intf.op_state in
    if user.n_speeds ==ℤ minus_one
    then record intf { op_state = record op { n_speeds = minus_one } }
    else if user.mtu ==ℤ minus_one
    then intf
    else record intf {
      op_state = override_capability intf.hw_info user (module_capability intf.pm_info op);
    }

-- ===== src/Config/Set/Outcome.antt =====
-- When set_interface_config enables an interface, and what it then depends on.
use ops_intfd.Prelude.{ℕ, ℤ, pos, ◌==ℤ◌, ◌≡◌, ◌⊎◌, inl, inr, true, false, arith, if◌then◌else◌}
use ops_intfd.Schema.{PmConnector}
use ops_intfd.Interface.{Iface, IntfUserCfg, IntfOperState, minus_one}
use ops_intfd.Config.Capability.{validate_capability, override_capability}
use ops_intfd.Connector.Kinds.{HasOwnFlags, native_speed}
use ops_intfd.Config.Capability.Table.{
  needs_autoneg, module_result, module_capability-eq, expected_autoneg, expected_reason,
  override-state,
}
use ops_intfd.Config.State.{set_op_state_mtu, op_mtu}

-- A count of speeds as the parser leaves it: -1 or a number.
abbrev pub IsCount : ℤ → Type 0
IsCount n = (n ≡ minus_one) ⊎ ((k : ℕ) × (n ≡ pos k))

abbrev pub prepared_op : Iface → IntfOperState
prepared_op intf = (validate_capability (set_op_state_mtu intf)).op_state

pub prepared-eq :
    (intf : Iface)
    → validate_capability (set_op_state_mtu intf) ≡ record intf { op_state = prepared_op intf }
unfolding validate_capability set_op_state_mtu
prepared-eq intf = ground arith

abbrev pub with_mtu : IntfUserCfg → IntfOperState → IntfOperState
with_mtu user op = record op { mtu = op_mtu user.mtu }

pub prepared_op-eq :
    (intf : Iface)
    → HasOwnFlags intf.pm_info
    → let user = intf.user_cfg in
      let op = with_mtu user intf.op_state in
      prepared_op intf ≡ (
        if user.n_speeds ==ℤ minus_one
        then record op { n_speeds = minus_one }
        else if user.mtu ==ℤ minus_one
        then op
        else override_capability intf.hw_info user (
            module_result
              (needs_autoneg intf.pm_info.connector)
              (native_speed intf.pm_info.connector)
              op))
unfolding validate_capability set_op_state_mtu
prepared_op-eq intf h =
    ground (arith, module_capability-eq intf.pm_info (with_mtu intf.user_cfg intf.op_state) h)

-- What the tests for the state of an interface find after the first two steps.
pub record IsPrepared (user : IntfUserCfg) (c : PmConnector) (op : IntfOperState) : Type 0 where
  pub mtu : (op.mtu ==ℤ minus_one) ≡ (user.mtu ==ℤ minus_one)
  pub bad_speeds : (user.n_speeds ==ℤ minus_one) ≡ true → op.n_speeds ≡ minus_one
  pub good_speeds :
      (user.mtu ==ℤ minus_one) ≡ false
      → (user.n_speeds ==ℤ minus_one) ≡ false
      → (op.n_speeds ==ℤ minus_one) ≡ false
  pub autoneg :
      (user.mtu ==ℤ minus_one) ≡ false
      → (user.n_speeds ==ℤ minus_one) ≡ false
      → (op.autoneg_state ≡ expected_autoneg (needs_autoneg c) user.autoneg)
        × (op.autoneg_reason ≡ expected_reason (needs_autoneg c) user.autoneg)

op_mtu_bad : (mtu : ℤ) → (op_mtu mtu ==ℤ minus_one) ≡ (mtu ==ℤ minus_one)
unfolding op_mtu
op_mtu_bad mtu = ground arith

pub prepared_op-IsPrepared :
    (intf : Iface)
    → HasOwnFlags intf.pm_info
    → IsCount intf.user_cfg.n_speeds
    → IsPrepared intf.user_cfg intf.pm_info.connector (prepared_op intf)
prepared_op-IsPrepared intf h (inl e) =
    ground (arith, prepared_op-eq intf h, op_mtu_bad intf.user_cfg.mtu)
prepared_op-IsPrepared intf h (inr (k, e)) = ground (
  arith,
  prepared_op-eq intf h,
  op_mtu_bad intf.user_cfg.mtu,
  override-state (needs_autoneg intf.pm_info.connector) (native_speed intf.pm_info.connector)
      intf.hw_info intf.user_cfg (with_mtu intf.user_cfg intf.op_state) k e,
)

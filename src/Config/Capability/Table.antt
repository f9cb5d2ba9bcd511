-- ===== src/Config/Capability/Table.antt =====
-- What validate_n_set_interface_capability comes to, for a module whose flags belong to its
-- connector.
use ops_intfd.Prelude.{
  ℕ, zero, suc, ℤ, pos, negsuc, ◌==ℤ◌, ltbℤ, ◌≡◌, refl, ◌∙◌, ◌==◌, ◌≢◌, Bool, true, false, ◌&&◌,
  List, [], ◌∷◌, arith, set, get_or, take, if◌then◌else◌,
}
use ops_intfd.Schema.{UserAutoneg, PmConnector, InterfaceError}
use ops_intfd.Interface.{
  IntfHwInfo, IntfUserCfg, IntfPmInfo, IntfOperState, minus_one, autoneg_state_invalid,
  autoneg_state_disabled, autoneg_state_enabled, autoneg_capability_unsupported,
  autoneg_capability_required,
}
use ops_intfd.Connector.{
  get_connector_flags, connector_is_sfp, connector_is_sfp_plus_10g, connector_is_sfp28_25g,
  connector_is_qsfp_plus_40g, connector_is_qsfp28_100g,
}
use ops_intfd.Connector.Kinds.{HasOwnFlags, native_speed}
use ops_intfd.Config.Capability.{module_capability, override_capability}

-- The copper modules, the 1 Gb/s ones, and everything without a known module need autonegotiation.
abbrev pub needs_autoneg : PmConnector → Bool
needs_autoneg PmConnector.sfp_sr = false
needs_autoneg PmConnector.sfp_lr = false
needs_autoneg PmConnector.sfp_er = false
needs_autoneg PmConnector.sfp_lrm = false
needs_autoneg PmConnector.sfp_dac = false
needs_autoneg PmConnector.sfp28_sr = false
needs_autoneg PmConnector.sfp28_lr = false
needs_autoneg PmConnector.qsfp_sr4 = false
needs_autoneg PmConnector.qsfp_lr4 = false
needs_autoneg PmConnector.qsfp28_sr4 = false
needs_autoneg PmConnector.qsfp28_lr4 = false
needs_autoneg PmConnector.qsfp28_clr4 = false
needs_autoneg PmConnector.qsfp28_psm4 = false
needs_autoneg PmConnector.qsfp28_cwdm4 = false
needs_autoneg _ = true

abbrev capability_if : Bool → ℤ
capability_if true = autoneg_capability_required
capability_if false = autoneg_capability_unsupported

-- The module's half, by whether it needs autonegotiation and its speed (0 for none).
abbrev pub module_result : Bool → ℕ → IntfOperState → IntfOperState
module_result needs native op = record op {
  autoneg_capability = capability_if needs;
  speeds = set op.speeds 0 native;
  n_speeds = if native == 0 then pos 0 else pos 1;
}

module_capability-at :
    (c : PmConnector) (pm : IntfPmInfo) (op : IntfOperState)
    → module_capability (record pm { op_connector_flags = get_connector_flags c; connector = c }) op
      ≡ module_result (needs_autoneg c) (native_speed c) op
unfolding module_capability get_connector_flags connector_is_sfp connector_is_sfp_plus_10g
    connector_is_sfp28_25g connector_is_qsfp_plus_40g connector_is_qsfp28_100g
module_capability-at PmConnector.sfp_rj45 pm op = refl
module_capability-at _ pm op = refl

pub module_capability-eq :
    (pm : IntfPmInfo) (op : IntfOperState)
    → HasOwnFlags pm
    → module_capability pm op
      ≡ module_result (needs_autoneg pm.connector) (native_speed pm.connector) op
module_capability-eq pm op h =
    (λ i. module_capability (record pm { op_connector_flags = h i }) op)
    ∙ module_capability-at pm.connector pm op

-- What the user asks of autonegotiation, against what the module needs.
abbrev pub expected_autoneg : Bool → UserAutoneg → ℤ
expected_autoneg true UserAutoneg.off = autoneg_state_invalid
expected_autoneg false UserAutoneg.off = autoneg_state_disabled
expected_autoneg true UserAutoneg.on = autoneg_state_enabled
expected_autoneg false UserAutoneg.on = autoneg_state_invalid
expected_autoneg true UserAutoneg.default = autoneg_state_enabled
expected_autoneg false UserAutoneg.default = autoneg_state_disabled

abbrev pub expected_reason : Bool → UserAutoneg → InterfaceError
expected_reason true UserAutoneg.off = InterfaceError.autoneg_required
expected_reason false UserAutoneg.on = InterfaceError.autoneg_not_supported
expected_reason _ _ = InterfaceError.uninitialized

-- The second half, over the first, where the user's count of speeds is no error.
module _ (needs : Bool) (native : ℕ) (hw : IntfHwInfo) (user : IntfUserCfg)
    (op : IntfOperState) where
  abbrev pub overridden : IntfOperState
  overridden = override_capability hw user (module_result needs native op)

  -- The state of autonegotiation and the reason are those of the table, whatever the speeds.
  pub override-state :
      (n : ℕ)
      → user.n_speeds ≡ pos n
      → (overridden.autoneg_state ≡ expected_autoneg needs user.autoneg)
        × (overridden.autoneg_reason ≡ expected_reason needs user.autoneg)
        × (overridden.mtu ≡ op.mtu)
        × (overridden.n_speeds ≢ minus_one)
  unfolding override_capability
  override-state n h = ground arith

-- The entries of an array that a count makes valid.
abbrev pub valid_speeds : ℤ → List ℕ → List ℕ
valid_speeds (pos n) speeds = take n speeds
valid_speeds (negsuc n) speeds = []

-- Without a conflict over autonegotiation: the user's speeds if the link negotiates, the first of
-- them if it does not, and the module's own if the user named none.
abbrev pub expected_speeds : Bool → ℕ → IntfUserCfg → ℕ → List ℕ
expected_speeds needs native user zero = if native == 0 then [] else native ∷ []
expected_speeds needs native user (suc n) =
    if expected_autoneg needs user.autoneg ==ℤ autoneg_state_enabled
    then take (suc n) user.speeds
    else get_or user.speeds 0 0 ∷ []

module _ (needs : Bool) (native : ℕ) (hw : IntfHwInfo) (user : IntfUserCfg) (op : IntfOperState)
    (no_conflict : expected_autoneg needs user.autoneg ≢ autoneg_state_invalid) where
  abbrev done : IntfOperState
  done = overridden needs native hw user op

  pub override-speeds :
      (n : ℕ) {s : ℕ} {rest : List ℕ}
      → op.speeds ≡ s ∷ rest
      → user.n_speeds ≡ pos n
      → valid_speeds done.n_speeds done.speeds ≡ expected_speeds needs native user n
  unfolding override_capability
  override-speeds zero o h = ground arith
  override-speeds (suc n) o h = ground arith

  -- There is no speed exactly if the user named none and the module has none.
  pub override-count :
      (n : ℕ)
      → user.n_speeds ≡ pos n
      → ((done.n_speeds ==ℤ pos 0) ≡ (n == 0 && native == 0)) × (ltbℤ done.n_speeds (pos 0) ≡ false)
  unfolding override_capability
  override-count zero h = ground arith
  override-count (suc n) h = ground arith

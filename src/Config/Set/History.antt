-- ===== src/Config/Set/History.antt =====
-- What set_interface_config writes to the row of an interface is a function of its configuration:
-- the state of operation that earlier calls left in it does not matter.
use ops_intfd.Prelude.{
  ℕ, zero, suc, ℤ, pos, negsuc, ltbℤ, ◌==ℤ◌, ◌==◌, ◌≡◌, refl, ap, ◌∙◌, ◌≢◌, inl, inr, Bool, true,
  false, ◌&&◌, not, Option, none, some, List, [], ◌∷◌, arith, All, if◌then◌else◌,
}
use ops_intfd.CString.{CString}
use ops_intfd.Smap.{smap_get}
use ops_intfd.Schema.{Idl, HwConfigKey, UserAutoneg, InterfaceError}
use ops_intfd.Database.{Ifrow}
use ops_intfd.Interface.{
  Iface, IntfUserCfg, IntfOperState, minus_one, autoneg_state_invalid, autoneg_state_enabled,
}
use ops_intfd.Utils.{get_intf_type_str}
use ops_intfd.Config.Capability.{is_autoneg}
use ops_intfd.Connector.Kinds.{HasOwnFlags, native_speed}
use ops_intfd.Config.Capability.Table.{
  needs_autoneg, overridden, expected_speeds, expected_autoneg, valid_speeds, override-speeds,
  override-count, override-state,
}
use ops_intfd.Config.State.{
  Heap, Parent, dangling, read_parent, is_virtual, op_mtu, hw_pause, hw_duplex, set_op_state_pause,
  set_op_state_duplex,
}
use ops_intfd.Config.HwConfig.{
  pause_string, duplex_string, is_type_written, new_hw_config, set_intf_hw_config_in_db,
}
use ops_intfd.Config.HwConfig.Keys.{
  KeysInjective, detail, first_entry, mtu_entry, speeds_entry, join_speeds, speed_string-eq-join,
  get-written,
}
use ops_intfd.Config.Set.{set_interface_config}
use ops_intfd.Config.Set.Outcome.{IsCount, prepared_op, prepared_op-eq, with_mtu}
use ops_intfd.Config.Set.Priority.{
  reasons, first_reason, finished, finished-state, set_interface_config-eq,
}

-- A count as a number.
abbrev count : ℤ → ℕ
count (pos n) = n
count (negsuc n) = 0

speeds_entry-eq :
    ⦃idl : Idl⦄ (n : ℤ) (speeds : List ℕ)
    → ltbℤ n (pos 0) ≡ false
    → speeds_entry n speeds
      ≡ (if n ==ℤ pos 0 then none else some (join_speeds (valid_speeds n speeds)))
speeds_entry-eq (pos zero) speeds h = refl
speeds_entry-eq (pos (suc n)) speeds h = ground (arith, speed_string-eq-join (suc n) speeds)
speeds_entry-eq (negsuc n) speeds h = cc

-- What it means for the tests that no row of the table applies.
record IsClear (user : IntfUserCfg) (needs : Bool) : Type 0 where
  mtu : (user.mtu ==ℤ minus_one) ≡ false
  speeds : (user.n_speeds ==ℤ minus_one) ≡ false
  autoneg : expected_autoneg needs user.autoneg ≢ autoneg_state_invalid

first_reason-All :
    (rows : List (Bool × InterfaceError))
    → (first_reason rows).0 ≡ true
    → All (λ (row : Bool × InterfaceError). row.0 ≡ false) rows
first_reason-All [] h = tt
first_reason-All ((false, reason) ∷ rows) h = (refl, first_reason-All rows h)
first_reason-All ((true, reason) ∷ rows) h = cc

no_conflict :
    (needs : Bool) (autoneg : UserAutoneg)
    → (needs && is_autoneg autoneg UserAutoneg.off) ≡ false
    → (not needs && is_autoneg autoneg UserAutoneg.on) ≡ false
    → expected_autoneg needs autoneg ≢ autoneg_state_invalid
no_conflict needs autoneg off on e = ground arith

clear :
    (parent : Parent) (intf : Iface)
    → (first_reason (reasons parent intf)).0 ≡ true
    → IsClear intf.user_cfg (needs_autoneg intf.pm_info.connector)
clear parent intf h =
    let (_, (_, (_, (_, (_, (_, (mtu, (speeds, (off, (on, _)))))))))) =
      first_reason-All (reasons parent intf) h in
    record {
      mtu = mtu;
      speeds = speeds;
      autoneg = no_conflict (needs_autoneg intf.pm_info.connector) intf.user_cfg.autoneg off on;
    }

prepared-clear :
    (intf : Iface)
    → HasOwnFlags intf.pm_info
    → IsClear intf.user_cfg (needs_autoneg intf.pm_info.connector)
    → prepared_op intf
      ≡ overridden
          (needs_autoneg intf.pm_info.connector)
          (native_speed intf.pm_info.connector)
          intf.hw_info
          intf.user_cfg
          (with_mtu intf.user_cfg intf.op_state)
prepared-clear intf h c = rw (prepared_op-eq intf h, c.speeds, c.mtu) refl

enabled-needs :
    (needs : Bool) (autoneg : UserAutoneg)
    → expected_autoneg needs autoneg ≢ autoneg_state_invalid
    → (expected_autoneg needs autoneg ==ℤ autoneg_state_enabled) ≡ needs
enabled-needs needs autoneg h = ground arith

if_both : {A : Type 0} {a b : Bool} (x y : A) → a ≡ true → b ≡ true → (if a && b then x else y) ≡ x
if_both x y p q = rw (p, q) refl

module _ ⦃idl : Idl⦄ where
  open idl use {hw_config_key, enable_true, hw_autoneg_on, hw_autoneg_off}

  -- The speeds of an enabled interface, if there are any.
  abbrev pub expected_speeds_entry : Iface → Option CString
  expected_speeds_entry intf =
      let needs = needs_autoneg intf.pm_info.connector in
      let native = native_speed intf.pm_info.connector in
      let n = count intf.user_cfg.n_speeds in
      if n == 0 && native == 0
      then none
      else some (join_speeds (expected_speeds needs native intf.user_cfg n))

  -- What the row of an enabled interface has at each key, from the configuration alone.
  abbrev pub expected_entry : Iface → HwConfigKey → Option CString
  expected_entry intf HwConfigKey.enable = some enable_true
  expected_entry intf HwConfigKey.autoneg =
      some (if needs_autoneg intf.pm_info.connector then hw_autoneg_on else hw_autoneg_off)
  expected_entry intf HwConfigKey.duplex = some (duplex_string (hw_duplex intf.user_cfg.duplex))
  expected_entry intf HwConfigKey.pause = some (pause_string (hw_pause intf.user_cfg.pause))
  expected_entry intf HwConfigKey.mtu = mtu_entry (op_mtu intf.user_cfg.mtu)
  expected_entry intf HwConfigKey.speeds = expected_speeds_entry intf
  expected_entry intf HwConfigKey.interface_type = some (get_intf_type_str intf.pm_info.intf_type)

  module _ (intf : Iface) (n : ℕ) {s : ℕ} {rest : List ℕ} (flags : HasOwnFlags intf.pm_info)
      (counted : intf.user_cfg.n_speeds ≡ pos n) (array : intf.op_state.speeds ≡ s ∷ rest)
      (c : IsClear intf.user_cfg (needs_autoneg intf.pm_info.connector)) where
    abbrev clear_op : IntfOperState
    clear_op =
        overridden (needs_autoneg intf.pm_info.connector) (native_speed intf.pm_info.connector)
          intf.hw_info intf.user_cfg (with_mtu intf.user_cfg intf.op_state)

    speeds-eq : speeds_entry clear_op.n_speeds clear_op.speeds ≡ expected_speeds_entry intf
    speeds-eq =
        let needs = needs_autoneg intf.pm_info.connector in
        let native = native_speed intf.pm_info.connector in
        let before = with_mtu intf.user_cfg intf.op_state in
        let counts =
          override-count needs native intf.hw_info intf.user_cfg before c.autoneg n counted in
        let speeds =
          override-speeds needs native intf.hw_info intf.user_cfg before c.autoneg n array
            counted in
        rw (speeds_entry-eq clear_op.n_speeds clear_op.speeds counts.1, counts.0, speeds, counted)
          refl

    detail-eq :
        (k : HwConfigKey) (reason : InterfaceError)
        → detail (finished intf clear_op (true, reason)) k ≡ expected_entry intf k
    unfolding finished set_op_state_pause set_op_state_duplex
    detail-eq HwConfigKey.enable reason = refl
    detail-eq HwConfigKey.autoneg reason =
        let needs = needs_autoneg intf.pm_info.connector in
        let state =
          override-state needs (native_speed intf.pm_info.connector) intf.hw_info intf.user_cfg
            (with_mtu intf.user_cfg intf.op_state) n counted in
        rw (state.0, enabled-needs needs intf.user_cfg.autoneg c.autoneg) refl
    detail-eq HwConfigKey.duplex reason = refl
    detail-eq HwConfigKey.pause reason = refl
    detail-eq HwConfigKey.mtu reason =
        let state =
          override-state (needs_autoneg intf.pm_info.connector)
            (native_speed intf.pm_info.connector) intf.hw_info intf.user_cfg
            (with_mtu intf.user_cfg intf.op_state) n counted in
        rw state.2 refl
    detail-eq HwConfigKey.speeds reason = speeds-eq
    detail-eq HwConfigKey.interface_type reason = refl

  is_type_written-real : (intf : Iface) → is_virtual intf ≡ false → is_type_written intf ≡ true
  is_type_written-real intf h = ground arith

  finished-type :
      (intf : Iface) (op : IntfOperState) (expected : Bool × InterfaceError)
      → (finished intf op expected).type ≡ intf.type
  unfolding finished set_op_state_pause set_op_state_duplex
  finished-type intf op (true, reason) = refl
  finished-type intf op (false, reason) = refl

  -- The entry, whatever decides the state.
  written-at :
      (intf : Iface) (k : HwConfigKey) (expected : Bool × InterfaceError) {s : ℕ} {rest : List ℕ}
      → KeysInjective
      → is_virtual intf ≡ false
      → HasOwnFlags intf.pm_info
      → IsCount intf.user_cfg.n_speeds
      → intf.op_state.speeds ≡ s ∷ rest
      → (expected.0 ≡ true → IsClear intf.user_cfg (needs_autoneg intf.pm_info.connector))
      → smap_get (new_hw_config (finished intf (prepared_op intf) expected)) (hw_config_key k)
        ≡ (if expected.0 then expected_entry intf k else first_entry false k)
  written-at intf k (false, reason) inj v h n array c =
      let done = finished intf (prepared_op intf) (false, reason) in
      get-written done k inj ∙ rw (finished-state intf (prepared_op intf) (false, reason)).0 refl
  written-at intf k (true, reason) inj v h (inl bad) array c = ground (arith, (c refl).speeds)
  written-at intf k (true, reason) inj v h (inr (n, good)) array c =
      let done = finished intf (prepared_op intf) (true, reason) in
      let typed = finished-type intf (prepared_op intf) (true, reason) in
      get-written done k inj
      ∙ if_both _ _ (finished-state intf (prepared_op intf) (true, reason)).0
          (is_type_written-real done (rw typed v))
      ∙ ap (λ o. detail (finished intf o (true, reason)) k) (prepared-clear intf h (c refl))
      ∙ detail-eq intf n h good array (c refl) k reason

  -- For an interface that is not of a virtual type, whose parent, if it has one, is allocated, whose
  -- module has the flags of its connector, whose count of speeds is -1 or a number and whose array
  -- of speeds is not empty, where different keys are written differently: the entry that
  -- set_interface_config writes under each key is a function of the configuration alone. It is that
  -- of `expected_entry` if no row of the documented table applies, and else "disabled" alone.
  pub set_interface_config-written :
      (heap : Heap) (row : Ifrow) (intf : Iface) (k : HwConfigKey) {s : ℕ} {rest : List ℕ}
      → KeysInjective
      → is_virtual intf ≡ false
      → read_parent heap intf.split_parent ≢ dangling
      → HasOwnFlags intf.pm_info
      → IsCount intf.user_cfg.n_speeds
      → intf.op_state.speeds ≡ s ∷ rest
      → let expected = first_reason (reasons (read_parent heap intf.split_parent) intf) in
        (result : Ifrow × Iface) × (set_interface_config heap row intf ≡ some result)
        × (smap_get result.0.hw_intf_config (hw_config_key k)
            ≡ (if expected.0 then expected_entry intf k else first_entry false k))
  unfolding set_intf_hw_config_in_db
  set_interface_config-written heap row intf k inj v d h n array =
      let parent = read_parent heap intf.split_parent in
      let expected = first_reason (reasons parent intf) in
      let done = finished intf (prepared_op intf) expected in
      (
        (set_intf_hw_config_in_db row done, done),
        set_interface_config-eq heap row intf v d h n,
        written-at intf k expected inj v h n array (clear parent intf),
      )

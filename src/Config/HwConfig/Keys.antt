-- ===== src/Config/HwConfig/Keys.antt =====
-- The map hw_intf_config that set_intf_hw_config_in_db builds, key by key.
use ops_intfd.Prelude.{
  ℕ, zero, suc, ℤ, pos, negsuc, ltbℤ, ◌≡◌, ◌≢◌, refl, sym, ◌∙◌, is_yes, Bool, true, false, ◌&&◌,
  Option, none, some, Bool-cases, inl, inr, List, [], ◌∷◌, ◌++◌, arith, take, ap, if◌then◌else◌,
}
use ops_intfd.CString.{CString, print_int, int_of_bits, str_eq}
use ops_intfd.CString.Equality.{strcmp-name, str_eq_sound, str_eq_ne}
use ops_intfd.Smap.{Smap, smap_get, smap_add}
use ops_intfd.Smap.Laws.{get-init, get-add}
use ops_intfd.Schema.{Idl, HwConfigKey}
use ops_intfd.Interface.{Iface, min_allowed_user_specified_mtu}
use ops_intfd.Utils.{get_intf_type_str}
use ops_intfd.Config.HwConfig.{
  speed_string, append_speeds, pause_string, duplex_string, autoneg_string, is_type_written,
  add_details, new_hw_config, add_mtu, add_speeds,
}

pub HwConfigKey-discrete : Discrete HwConfigKey
HwConfigKey-discrete = hlevel

-- The speeds of a list, as the row has them: "%d" of each, with commas between.
abbrev pub join_rest : List ℕ → CString
join_rest [] = []
join_rest (s ∷ speeds) = (b',' ∷ print_int (int_of_bits s)) ++ join_rest speeds

abbrev pub join_speeds : List ℕ → CString
join_speeds [] = []
join_speeds (s ∷ speeds) = print_int (int_of_bits s) ++ join_rest speeds

append-take : (n : ℕ) (speeds : List ℕ) → append_speeds n speeds ≡ join_rest (take n speeds)
unfolding append_speeds
append-take zero speeds = refl
append-take (suc n) [] = refl
append-take (suc n) (s ∷ speeds) =
    ap (λ t. (b',' ∷ print_int (int_of_bits s)) ++ t) (append-take n speeds)

-- The string depends on the entries that the count makes valid, and on no others.
pub speed_string-eq-join :
    (n : ℕ) (speeds : List ℕ) → speed_string n speeds ≡ join_speeds (take n speeds)
unfolding speed_string
speed_string-eq-join zero speeds = refl
speed_string-eq-join (suc n) [] = refl
speed_string-eq-join (suc n) (s ∷ speeds) =
    ap (λ t. print_int (int_of_bits s) ++ t) (append-take n speeds)

module _ ⦃idl : Idl⦄ where
  open idl use {hw_config_key, enable_true, enable_false, type_internal, type_vlansubint}

  -- Different keys are written differently.
  abbrev pub KeysInjective : Type 0
  KeysInjective = (a b : HwConfigKey) → hw_config_key a ≡ hw_config_key b → a ≡ b

  abbrev pub mtu_entry : ℤ → Option CString
  mtu_entry mtu =
      if ltbℤ mtu (pos min_allowed_user_specified_mtu) then none else some (print_int mtu)

  abbrev pub speeds_entry : ℤ → List ℕ → Option CString
  speeds_entry (pos (suc n)) speeds = some (speed_string (suc n) speeds)
  speeds_entry n speeds = none

  -- The second map is the first with one entry more, or none, under a key.
  abbrev Adds : HwConfigKey → Option CString → Smap → Smap → Type 0
  Adds k entry m m' =
      (j : HwConfigKey)
      → smap_get m' (hw_config_key j)
        ≡ (if is_yes (HwConfigKey-discrete k j) then entry else smap_get m (hw_config_key j))

  add-Adds :
      (k : HwConfigKey) (m : Smap) (v : CString)
      → KeysInjective
      → smap_get m (hw_config_key k) ≡ none
      → Adds k (some v) m (smap_add m (hw_config_key k) v)
  add-Adds k m v inj h j =
      get-add m (hw_config_key k) (hw_config_key j) v h
      ∙ rw (strcmp-name HwConfigKey-discrete hw_config_key inj k j) refl

  -- Adding nothing under a key that has no entry.
  none-if :
      (k j : HwConfigKey) (d : Dec (k ≡ j)) (m : Smap)
      → smap_get m (hw_config_key k) ≡ none
      → smap_get m (hw_config_key j) ≡ (if is_yes d then none else smap_get m (hw_config_key j))
  none-if k j (yes e) m h = ap (λ i. smap_get m (hw_config_key i)) (sym e) ∙ h
  none-if k j (no _) m h = refl

  none-Adds : (k : HwConfigKey) (m : Smap) → smap_get m (hw_config_key k) ≡ none → Adds k none m m
  none-Adds k m h j = none-if k j (HwConfigKey-discrete k j) m h

  add_mtu-Adds :
      (mtu : ℤ) (m : Smap)
      → KeysInjective
      → smap_get m (hw_config_key HwConfigKey.mtu) ≡ none
      → Adds HwConfigKey.mtu (mtu_entry mtu) m (add_mtu mtu m)
  add_mtu-Adds mtu m inj h = elim (Bool-cases (ltbℤ mtu (pos min_allowed_user_specified_mtu))) [
    | inl e ↦ rw e (none-Adds HwConfigKey.mtu m h)
    | inr e ↦ rw e (add-Adds HwConfigKey.mtu m (print_int mtu) inj h)
  ]

  add_speeds-Adds :
      (n : ℤ) (speeds : List ℕ) (m : Smap)
      → KeysInjective
      → smap_get m (hw_config_key HwConfigKey.speeds) ≡ none
      → Adds HwConfigKey.speeds (speeds_entry n speeds) m (add_speeds n speeds m)
  add_speeds-Adds (pos zero) speeds m inj h = none-Adds HwConfigKey.speeds m h
  add_speeds-Adds (pos (suc n)) speeds m inj h =
      add-Adds HwConfigKey.speeds m (speed_string (suc n) speeds) inj h
  add_speeds-Adds (negsuc n) speeds m inj h = none-Adds HwConfigKey.speeds m h

  -- The entry under each key of an interface that is enabled.
  abbrev pub detail : Iface → HwConfigKey → Option CString
  detail intf HwConfigKey.enable = some enable_true
  detail intf HwConfigKey.autoneg = some (autoneg_string intf.op_state.autoneg_state)
  detail intf HwConfigKey.duplex = some (duplex_string intf.op_state.duplex)
  detail intf HwConfigKey.pause = some (pause_string intf.op_state.pause)
  detail intf HwConfigKey.mtu = mtu_entry intf.op_state.mtu
  detail intf HwConfigKey.speeds = speeds_entry intf.op_state.n_speeds intf.op_state.speeds
  detail intf HwConfigKey.interface_type = some (get_intf_type_str intf.pm_info.intf_type)

  -- The map before the details.
  abbrev pub first_entry : Bool → HwConfigKey → Option CString
  first_entry enabled HwConfigKey.enable = some (if enabled then enable_true else enable_false)
  first_entry enabled _ = none

  get-add_details :
      (intf : Iface) (m : Smap)
      → KeysInjective
      → ((k : HwConfigKey) → smap_get m (hw_config_key k) ≡ first_entry true k)
      → (k : HwConfigKey) → smap_get (add_details intf m) (hw_config_key k) ≡ detail intf k
  unfolding add_details HwConfigKey-discrete
  get-add_details intf m inj h k =
      let op = intf.op_state in
      let m1 = smap_add m (hw_config_key HwConfigKey.autoneg) (autoneg_string op.autoneg_state) in
      let m2 = smap_add m1 (hw_config_key HwConfigKey.duplex) (duplex_string op.duplex) in
      let m3 = smap_add m2 (hw_config_key HwConfigKey.pause) (pause_string op.pause) in
      let m4 = add_mtu op.mtu m3 in
      let m5 = add_speeds op.n_speeds op.speeds m4 in
      let a1 =
        add-Adds HwConfigKey.autoneg m (autoneg_string op.autoneg_state) inj
          (h HwConfigKey.autoneg) in
      let a2 =
        add-Adds HwConfigKey.duplex m1 (duplex_string op.duplex) inj
          (a1 HwConfigKey.duplex ∙ h HwConfigKey.duplex) in
      let a3 =
        add-Adds HwConfigKey.pause m2 (pause_string op.pause) inj
          (a2 HwConfigKey.pause ∙ a1 HwConfigKey.pause ∙ h HwConfigKey.pause) in
      let a4 =
        add_mtu-Adds op.mtu m3 inj
          (a3 HwConfigKey.mtu ∙ a2 HwConfigKey.mtu ∙ a1 HwConfigKey.mtu ∙ h HwConfigKey.mtu) in
      let a5 = add_speeds-Adds op.n_speeds op.speeds m4 inj (
        a4 HwConfigKey.speeds
        ∙ a3 HwConfigKey.speeds
        ∙ a2 HwConfigKey.speeds
        ∙ a1 HwConfigKey.speeds
        ∙ h HwConfigKey.speeds) in
      let t = HwConfigKey.interface_type in
      let a6 =
        add-Adds t m5 (get_intf_type_str intf.pm_info.intf_type) inj
          (a5 t ∙ a4 t ∙ a3 t ∙ a2 t ∙ a1 t ∙ h t) in
      elim k as (λ k. smap_get (add_details intf m) (hw_config_key k) ≡ detail intf k) [
        | HwConfigKey.interface_type ↦ a6 HwConfigKey.interface_type
        | HwConfigKey.speeds ↦ a6 HwConfigKey.speeds ∙ a5 HwConfigKey.speeds
        | HwConfigKey.mtu ↦ a6 HwConfigKey.mtu ∙ a5 HwConfigKey.mtu ∙ a4 HwConfigKey.mtu
        | HwConfigKey.pause ↦
            a6 HwConfigKey.pause
            ∙ a5 HwConfigKey.pause
            ∙ a4 HwConfigKey.pause
            ∙ a3 HwConfigKey.pause
        | HwConfigKey.duplex ↦
            a6 HwConfigKey.duplex
            ∙ a5 HwConfigKey.duplex
            ∙ a4 HwConfigKey.duplex
            ∙ a3 HwConfigKey.duplex
            ∙ a2 HwConfigKey.duplex
        | HwConfigKey.autoneg ↦
            a6 HwConfigKey.autoneg
            ∙ a5 HwConfigKey.autoneg
            ∙ a4 HwConfigKey.autoneg
            ∙ a3 HwConfigKey.autoneg
            ∙ a2 HwConfigKey.autoneg
            ∙ a1 HwConfigKey.autoneg
        | HwConfigKey.enable ↦
            a6 HwConfigKey.enable
            ∙ a5 HwConfigKey.enable
            ∙ a4 HwConfigKey.enable
            ∙ a3 HwConfigKey.enable
            ∙ a2 HwConfigKey.enable
            ∙ a1 HwConfigKey.enable
            ∙ h HwConfigKey.enable
      ]

  first_entry-if :
      (enabled : Bool) (k : HwConfigKey)
      → (if is_yes (HwConfigKey-discrete HwConfigKey.enable k)
          then some (if enabled then enable_true else enable_false)
          else none)
        ≡ first_entry enabled k
  unfolding HwConfigKey-discrete
  first_entry-if enabled HwConfigKey.enable = refl
  first_entry-if enabled _ = refl

  get-enable :
      (enabled : Bool) (k : HwConfigKey)
      → KeysInjective
      → smap_get
          (smap_add []
            (hw_config_key HwConfigKey.enable)
            (if enabled then enable_true else enable_false))
          (hw_config_key k)
        ≡ first_entry enabled k
  get-enable enabled k inj =
      let value = if enabled then enable_true else enable_false in
      let a =
        add-Adds HwConfigKey.enable [] value inj (get-init (hw_config_key HwConfigKey.enable)) in
      a k ∙ rw (get-init (hw_config_key k)) (first_entry-if enabled k)

  enabled-entry :
      (intf : Iface)
      → KeysInjective
      → (intf.op_state.enabled && is_type_written intf) ≡ true
      → (k : HwConfigKey)
      → smap_get
          (smap_add []
            (hw_config_key HwConfigKey.enable)
            (if intf.op_state.enabled then enable_true else enable_false))
          (hw_config_key k)
        ≡ first_entry true k
  enabled-entry intf inj e k = ground (arith, get-enable intf.op_state.enabled k inj)

  pub get-written :
      (intf : Iface) (k : HwConfigKey)
      → KeysInjective
      → smap_get (new_hw_config intf) (hw_config_key k) ≡ (
          if intf.op_state.enabled && is_type_written intf
          then detail intf k
          else first_entry intf.op_state.enabled k)
  unfolding new_hw_config
  get-written intf k inj =
      let enabled = intf.op_state.enabled in
      elim (Bool-cases (enabled && is_type_written intf)) [
        | inl e ↦ rw e (get-add_details intf _ inj (enabled-entry intf inj e) k)
        | inr e ↦ rw e (get-enable enabled k inj)
      ]

  if_true :
      (enabled typed : Bool) (x : Option CString) (y : Bool → Option CString)
      → typed ≡ true
      → (if enabled && typed then x else y enabled) ≡ (if enabled then x else y false)
  if_true true typed x y e = rw e refl
  if_true false typed x y e = refl

  -- Two of the types differ, so that the test on the type holds of every interface.
  type_written : (intf : Iface) → type_internal ≢ type_vlansubint → is_type_written intf ≡ true
  type_written intf differ = elim (Bool-cases (str_eq intf.type type_internal)) [
    | inr other ↦ rw other refl
    | inl same ↦ rw same (
        rw
          (str_eq_ne intf.type type_vlansubint
            (λ e. differ (sym (str_eq_sound intf.type type_internal same) ∙ e)))
          refl)
  ]

  -- Where different keys are written differently and the names of the types internal and
  -- vlansubint differ: the map that is written for an enabled interface, of whatever type, has at
  -- each key what the interface's state of operation says, and that for a disabled one has the entry
  -- for `enable` alone, which is false.
  pub get-new_hw_config :
      (intf : Iface) (k : HwConfigKey)
      → KeysInjective
      → type_internal ≢ type_vlansubint
      → smap_get (new_hw_config intf) (hw_config_key k)
        ≡ (if intf.op_state.enabled then detail intf k else first_entry false k)
  get-new_hw_config intf k inj differ =
      get-written intf k inj
      ∙ if_true intf.op_state.enabled (is_type_written intf) (detail intf k)
          (λ enabled. first_entry enabled k) (type_written intf differ)

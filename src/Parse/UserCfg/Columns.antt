-- ===== src/Parse/UserCfg/Columns.antt =====
-- What intfd_parse_user_cfg returns, and when it faults.
use ops_intfd.Prelude.{
  [], ℕ, ◌≤◌, ℤ, pos, negsuc, ltbℤ, ◌≡◌, refl, ◌⊎◌, inl, inr, ◌↔◌, Bool, true, false, ◌||◌, Option,
  none, some, List, arith, OnSome, OnSome-some, OnSome-bind, Bool-cases,
}
use ops_intfd.CString.{CString, atoi, is_a_number}
use ops_intfd.Smap.{Smap, smap_get}
use ops_intfd.Schema.{Idl, UserConfigKey, HwInfoKey}
use ops_intfd.Interface.{IntfUserCfg, minus_one, min_allowed_user_specified_mtu}
use ops_intfd.Parse.Speeds.{
  no_speeds, parse_speeds, check_supported, parse_user_speeds, parse_user_mtu,
}
use ops_intfd.Parse.Speeds.Bounds.{IsSpeedCount, parse_speeds-bounds}
use ops_intfd.Parse.UserCfg.{
  parse_user_cfg, parse_admin, parse_autoneg, parse_pause, parse_duplex, parse_lane_split,
}

-- -1, unset, or between the daemon's minimum and the subsystem's limit.
abbrev pub IsMtu : ℤ → ℤ → Type 0
IsMtu base_mtu mtu =
    (mtu ≡ minus_one)
    ⊎ (mtu ≡ pos 0)
    ⊎ ((k : ℕ) × (mtu ≡ pos k) × (min_allowed_user_specified_mtu ≤ k) × (ltbℤ base_mtu mtu ≡ false))

in_range :
    (base_mtu v : ℤ)
    → (ltbℤ v (pos min_allowed_user_specified_mtu) || ltbℤ base_mtu v) ≡ false
    → IsMtu base_mtu v
in_range base_mtu (pos k) h = inr (inr (k, refl, ground arith, ground arith))
in_range base_mtu (negsuc k) h = cc

parse_user_mtu-IsMtu :
    (base_mtu : ℤ) (str : Option CString) → IsMtu base_mtu (parse_user_mtu base_mtu str)
unfolding parse_user_mtu
parse_user_mtu-IsMtu base_mtu none = inr (inl refl)
parse_user_mtu-IsMtu base_mtu (some str) = elim (Bool-cases (is_a_number str)) [
  | inr e ↦ rw e (inl refl)
  | inl e ↦
      rw e
        (elim (Bool-cases
          (ltbℤ (atoi str) (pos min_allowed_user_specified_mtu) || ltbℤ base_mtu (atoi str))) [
            | inl out ↦ rw out (inl refl)
            | inr fits ↦ rw fits (in_range base_mtu (atoi str) fits)
          ])
]

-- The comparison returns what it was given, or -1.
check_keeps :
    (n : ℤ) (speeds : List ℕ) (hw : ℤ × List ℕ)
    → (check_supported n speeds hw ≡ n) ⊎ (check_supported n speeds hw ≡ minus_one)
unfolding check_supported
check_keeps (pos n) speeds (pos m, hw) = ground arith
check_keeps (pos n) speeds (negsuc m, hw) = inr refl
check_keeps (negsuc n) speeds hw = inr refl

check-IsSpeedCount :
    (n : ℤ) (speeds : List ℕ) (hw : ℤ × List ℕ)
    → IsSpeedCount n
    → IsSpeedCount (check_supported n speeds hw)
check-IsSpeedCount n speeds hw c = elim (check_keeps n speeds hw) [ inl e ↦ rw e c | inr e ↦ inl e ]

CountOf : Option (ℤ × List ℕ) → Type 0
CountOf = OnSome (λ (r : ℤ × List ℕ). IsSpeedCount r.0)

parse_user_speeds-count :
    (before : List ℕ) (str hw : Option CString) → CountOf (parse_user_speeds before str hw)
unfolding parse_user_speeds CountOf
parse_user_speeds-count before none hw = inr (0, refl, omega arith)
parse_user_speeds-count before (some str) none =
    elim (Bool-cases (ltbℤ (pos 0) (parse_speeds str no_speeds).0)) [
      | inl e ↦ rw e tt
      | inr e ↦ rw e (parse_speeds-bounds str no_speeds [] refl).0
    ]
parse_user_speeds-count before (some str) (some hw) =
    let (n_speeds, speeds) = parse_speeds str no_speeds in
    elim (Bool-cases (ltbℤ (pos 0) n_speeds)) [
      | inl e ↦ rw e (
          check-IsSpeedCount n_speeds speeds (parse_speeds hw no_speeds)
            (parse_speeds-bounds str no_speeds [] refl).0)
      | inr e ↦ rw e (parse_speeds-bounds str no_speeds [] refl).0
    ]

-- What holds of a parsed configuration.
pub record IsParsed (base_mtu : ℤ) (cfg : IntfUserCfg) : Type 0 where
  pub n_speeds : IsSpeedCount cfg.n_speeds
  pub mtu : IsMtu base_mtu cfg.mtu

module _ ⦃idl : Idl⦄ where
  open idl use {user_config_key, hw_info_key}

  -- Whatever the columns hold and the structure held: a parsed configuration has a count of speeds
  -- that is -1 or at most ten, and an MTU that is -1, unset, or between the daemon's minimum and
  -- the limit of the subsystem.
  pub parse_user_cfg-IsParsed :
      (base_mtu : ℤ) (before : IntfUserCfg) (config hw : Smap) (cfg : IntfUserCfg)
      → parse_user_cfg base_mtu before config hw ≡ some cfg
      → IsParsed base_mtu cfg
  unfolding parse_user_cfg CountOf
  parse_user_cfg-IsParsed base_mtu before config hw cfg h =
      let str = smap_get config (user_config_key UserConfigKey.speeds) in
      let hw_str = smap_get hw (hw_info_key HwInfoKey.speeds) in
      let read = parse_user_speeds before.speeds str hw_str in
      OnSome-some (IsParsed base_mtu) (parse_user_cfg base_mtu before config hw)
        (OnSome-bind (IsParsed base_mtu) read _ λ (n, speeds) e. record {
          n_speeds =
              OnSome-some (λ (r : ℤ × List ℕ). IsSpeedCount r.0) read
                (parse_user_speeds-count before.speeds str hw_str) e;
          mtu = parse_user_mtu-IsMtu base_mtu (smap_get config (user_config_key UserConfigKey.mtu));
        })
        h

  -- The text of the user's speeds has at least one speed and no error.
  abbrev pub names_speeds : Option CString → Bool
  names_speeds none = false
  names_speeds (some str) = ltbℤ (pos 0) (parse_speeds str no_speeds).0

  -- The parser faults exactly when the user names speeds and the hardware's description of the
  -- interface has none.
  pub parse_user_cfg-fault :
      (base_mtu : ℤ) (before : IntfUserCfg) (config hw : Smap)
      → (parse_user_cfg base_mtu before config hw ≡ none) ↔ (
          (names_speeds (smap_get config (user_config_key UserConfigKey.speeds)) ≡ true)
          × (smap_get hw (hw_info_key HwInfoKey.speeds) ≡ none))
  unfolding parse_user_cfg parse_user_speeds
  parse_user_cfg-fault base_mtu before config hw = (λ h. ground arith, λ (a, b). ground arith)

  -- If the user names no speeds, the array of the structure is left as it was.
  pub parse_user_cfg-unset :
      (base_mtu : ℤ) (before : IntfUserCfg) (config hw : Smap)
      → smap_get config (user_config_key UserConfigKey.speeds) ≡ none
      → (cfg : IntfUserCfg) × (parse_user_cfg base_mtu before config hw ≡ some cfg)
        × (cfg.n_speeds ≡ pos 0)
        × (cfg.speeds ≡ before.speeds)
  unfolding parse_user_cfg parse_user_speeds
  parse_user_cfg-unset base_mtu before config hw h = (
    record {
      admin_state = parse_admin config;
      autoneg = parse_autoneg config;
      pause = parse_pause config;
      duplex = parse_duplex config;
      lane_split = parse_lane_split config;
      speeds = before.speeds;
      n_speeds = pos 0;
      mtu = parse_user_mtu base_mtu (smap_get config (user_config_key UserConfigKey.mtu));
    },
    rw h refl,
    refl,
    refl,
  )

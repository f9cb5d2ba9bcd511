-- ===== src/Show/Replay/Values.antt =====
-- The parsers of src/intfd_ovsdb_if.c on a map that the lines of show running-config have made again.
use ops_intfd.Prelude.{
  ℤ, Bool, Option, none, some, ◌≡◌, refl, if◌then◌else◌, Option-cases, inl, inr, arith,
}
use mathlib.Core.Option.{map}
use ops_intfd.CString.{CString, is_str}
use ops_intfd.CString.Equality.{strcmp_iff, str_eq_iff, str_eq_refl}
use ops_intfd.Smap.{Smap, smap_get}
use ops_intfd.Schema.{Idl, UserConfigKey, UserAutoneg, HwInfoKey}
use ops_intfd.Interface.{IntfUserCfg}
use ops_intfd.Parse.Speeds.{parse_user_speeds}
use ops_intfd.Parse.UserCfg.{
  parse_user_cfg, parse_admin, parse_autoneg, parse_pause, parse_duplex, parse_lane_split,
}
use ops_intfd.Show.Replay.Columns.{kept_admin, kept_autoneg}

-- The value on is shown like the default.
abbrev pub shown_autoneg : UserAutoneg → UserAutoneg
shown_autoneg UserAutoneg.on = UserAutoneg.default
shown_autoneg UserAutoneg.off = UserAutoneg.off
shown_autoneg UserAutoneg.default = UserAutoneg.default

abbrev pub shown_cfg : IntfUserCfg → IntfUserCfg
shown_cfg cfg = record cfg { autoneg = shown_autoneg cfg.autoneg }

module _ ⦃idl : Idl⦄ where
  open idl use {user_config_key, user_autoneg_name, admin_up, hw_info_key}

  abbrev admin_of : Option CString → Bool
  admin_of v = is_str v admin_up

  is_str-kept_admin : (v : Option CString) → is_str (kept_admin v) admin_up ≡ is_str v admin_up
  unfolding is_str
  is_str-kept_admin none = refl
  is_str-kept_admin (some s) =
      ground (arith, strcmp_iff s admin_up, str_eq_iff s admin_up, str_eq_refl admin_up)

  abbrev autoneg_of : Option CString → UserAutoneg
  autoneg_of v =
      if is_str v (user_autoneg_name UserAutoneg.off)
      then UserAutoneg.off
      else if is_str v (user_autoneg_name UserAutoneg.on)
      then UserAutoneg.on
      else UserAutoneg.default

  autoneg_of-kept :
      ((a b : UserAutoneg) → user_autoneg_name a ≡ user_autoneg_name b → a ≡ b)
      → (v : Option CString) → autoneg_of (kept_autoneg v) ≡ shown_autoneg (autoneg_of v)
  unfolding is_str
  autoneg_of-kept inj none = refl
  autoneg_of-kept inj (some s) =
      let off = user_autoneg_name UserAutoneg.off in
      let on = user_autoneg_name UserAutoneg.on in
      let default = user_autoneg_name UserAutoneg.default in
      ground (
        arith,
        strcmp_iff s default,
        strcmp_iff s on,
        str_eq_iff s off,
        str_eq_iff s on,
        inj UserAutoneg.off UserAutoneg.on,
        inj UserAutoneg.off UserAutoneg.default,
      )

  -- The two maps agree on what is parsed.
  pub parse_user_cfg-kept :
      (autoneg_inj : (a b : UserAutoneg) → user_autoneg_name a ≡ user_autoneg_name b → a ≡ b)
      (base_mtu : ℤ) (before : IntfUserCfg) (config original hw : Smap)
      → smap_get config (user_config_key UserConfigKey.admin)
        ≡ kept_admin (smap_get original (user_config_key UserConfigKey.admin))
      → smap_get config (user_config_key UserConfigKey.autoneg)
        ≡ kept_autoneg (smap_get original (user_config_key UserConfigKey.autoneg))
      → smap_get config (user_config_key UserConfigKey.pause)
        ≡ smap_get original (user_config_key UserConfigKey.pause)
      → smap_get config (user_config_key UserConfigKey.duplex)
        ≡ smap_get original (user_config_key UserConfigKey.duplex)
      → smap_get config (user_config_key UserConfigKey.speeds)
        ≡ smap_get original (user_config_key UserConfigKey.speeds)
      → smap_get config (user_config_key UserConfigKey.mtu)
        ≡ smap_get original (user_config_key UserConfigKey.mtu)
      → smap_get config (user_config_key UserConfigKey.lane_split)
        ≡ smap_get original (user_config_key UserConfigKey.lane_split)
      → parse_user_cfg base_mtu before config hw
        ≡ map shown_cfg (parse_user_cfg base_mtu before original hw)
  unfolding parse_user_cfg parse_admin parse_autoneg parse_pause parse_duplex parse_lane_split
      is_str
  parse_user_cfg-kept autoneg_inj base_mtu before config original hw admin autoneg pause duplex
        speeds mtu lanes =
      rw
        (
          admin,
          autoneg,
          pause,
          duplex,
          speeds,
          mtu,
          lanes,
          is_str-kept_admin (smap_get original (user_config_key UserConfigKey.admin)),
          autoneg_of-kept autoneg_inj (smap_get original (user_config_key UserConfigKey.autoneg)),
        )
        (elim (Option-cases (
          parse_user_speeds before.speeds (smap_get original (user_config_key UserConfigKey.speeds))
            (smap_get hw (hw_info_key HwInfoKey.speeds)))) [
              | inl e ↦ rw e refl
              | inr (found, e) ↦ rw e refl
            ])

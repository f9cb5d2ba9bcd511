-- ===== src/Cli/Readback.antt =====
-- The commands of src/cli/intf_vty.c and the parsers of src/intfd_ovsdb_if.c: what the daemon reads
-- from the column that a command has written.
use ops_intfd.Prelude.{
  ℕ, ◌%◌, ◌^◌, ◌-◌, negsuc, sym, ap, ◌∙◌, ◌≤◌, ℤ, pos, ltbℤ, ◌≡◌, refl, Bool, true, false, ◌||◌,
  none, some, [], ◌∷◌, if◌then◌else◌, arith, inl, inr, Bool-cases,
}
use ops_intfd.CString.{
  CString, bytes, strcmp_is_zero, is_str, str_eq, is_a_number, is_digit, atoi, atoi_bits,
  int_of_bits, scan_digits, scan_sign, skip_space,
}
use ops_intfd.CString.Equality.{strcmp_iff, str_eq_iff, str_eq_refl, strcmp_refl}
use Prim.Native.Nat.{min}
use ops_intfd.CString.Strtol.{strtol, long_value}
use ops_intfd.Interface.{minus_one, min_allowed_user_specified_mtu}
use ops_intfd.Smap.{Smap, smap_get}
use ops_intfd.Smap.Laws.{get-removed, get-replaced}
use ops_intfd.Schema.{Idl, UserConfigKey, UserAdmin, UserAutoneg, UserDuplex}
use ops_intfd.Parse.Speeds.{parse_user_mtu}
use ops_intfd.Parse.UserCfg.{parse_admin, parse_autoneg, parse_duplex}
use ops_intfd.Cli.Commands.{accepts_mtu, edit_admin, edit_mtu, edit_duplex, edit_autoneg}

first_digit :
    (c : ℕ) (s : CString)
    → is_digit c ≡ true
    → scan_sign (skip_space (c ∷ s)) ≡ (false, scan_digits 0 (c ∷ s))
unfolding scan_sign skip_space
first_digit c s h = let e : skip_space (c ∷ s) ≡ c ∷ s = ground arith in rw e (ground arith)

-- Nothing wraps below 2 ^ 31.
small : (n : ℕ) → n ≤ 9192 → int_of_bits (n % 2 ^ 32) ≡ pos n
unfolding int_of_bits
small n h = ground arith

in_range : (n : ℕ) → ltbℤ (pos 9192) (pos n) ≡ false → n ≤ 9192
in_range n h = ground arith

-- A number that is small is what both functions of the C library read.
strtol-atoi :
    (s : CString)
    → is_a_number s ≡ true
    → ltbℤ (strtol s) (pos 576) ≡ false
    → ltbℤ (pos 9192) (strtol s) ≡ false
    → atoi s ≡ strtol s
unfolding is_a_number strtol atoi scan_sign skip_space
strtol-atoi [] h low high = ground arith
strtol-atoi (c ∷ s) h low high =
    let scanned : scan_sign (skip_space (c ∷ s)) ≡ (false, scan_digits 0 (c ∷ s)) =
      first_digit c s (ground arith) in
    let n = min (scan_digits 0 (c ∷ s)) (2 ^ 63 - 1) in
    let value : strtol (c ∷ s) ≡ pos n = ap long_value scanned in
    rw (atoi, atoi_bits, strtol, scanned)
      (small n (in_range n (ap (ltbℤ (pos 9192)) (sym value) ∙ high)))

-- The daemon's test, where the subsystem allows what the command does.
fits :
    (base_mtu mtu : ℤ)
    → ltbℤ mtu (pos 576) ≡ false
    → ltbℤ (pos 9192) mtu ≡ false
    → ltbℤ base_mtu (pos 9192) ≡ false
    → (if ltbℤ mtu (pos min_allowed_user_specified_mtu) || ltbℤ base_mtu mtu
        then minus_one
        else mtu)
      ≡ mtu
fits (pos b) (pos m) low high wide = ground arith
fits (pos b) (negsuc m) low high wide = absurd (cc low)
fits (negsuc b) mtu low high wide = absurd (cc wide)

module _ ⦃idl : Idl⦄ where
  open idl use {
    user_config_key, admin_up, admin_down, user_autoneg_name, user_pause_name, user_duplex_name,
    mtu_default,
  }

  parse_admin-edit :
      (no_cmd : Bool) (config : Smap)
      → str_eq admin_down admin_up ≡ false
      → parse_admin (edit_admin no_cmd config) ≡ (if no_cmd then UserAdmin.up else UserAdmin.down)
  unfolding edit_admin parse_admin is_str
  parse_admin-edit true config differ =
      rw
        (
          parse_admin,
          get-replaced config (user_config_key UserConfigKey.admin) admin_up,
          is_str,
          str_eq_refl admin_up,
        )
        refl
  parse_admin-edit false config differ =
      rw
        (
          parse_admin,
          get-replaced config (user_config_key UserConfigKey.admin) admin_down,
          is_str,
          differ,
        )
        refl

  parse_duplex-edit :
      (no_cmd : Bool) (duplex : CString) (config : Smap)
      → parse_duplex (edit_duplex no_cmd duplex config) ≡ (
          if no_cmd || strcmp_is_zero duplex (bytes "full")
          then UserDuplex.full
          else UserDuplex.half)
  unfolding edit_duplex parse_duplex is_str
  parse_duplex-edit no_cmd duplex config =
      let key = user_config_key UserConfigKey.duplex in
      let half = user_duplex_name UserDuplex.half in
      elim (Bool-cases (no_cmd || strcmp_is_zero duplex (bytes "full"))) [
        | inl e ↦ rw (e, get-removed config key) refl
        | inr e ↦ rw (e, get-replaced config key half, str_eq_refl half) refl
      ]

  -- What smap_get finds after the edit.
  get-edit_autoneg :
      (no_cmd : Bool) (arg : CString) (config : Smap)
      → smap_get (edit_autoneg no_cmd arg config) (user_config_key UserConfigKey.autoneg) ≡ (
          if no_cmd || strcmp_is_zero (user_autoneg_name UserAutoneg.default) arg
          then none
          else some arg)
  unfolding edit_autoneg
  get-edit_autoneg no_cmd arg config =
      let key = user_config_key UserConfigKey.autoneg in
      ground (arith, get-removed config key, get-replaced config key arg)

  parse_autoneg-edit :
      (no_cmd : Bool) (autoneg : UserAutoneg) (config : Smap)
      → ((a b : UserAutoneg) → user_autoneg_name a ≡ user_autoneg_name b → a ≡ b)
      → parse_autoneg (edit_autoneg no_cmd (user_autoneg_name autoneg) config)
        ≡ (if no_cmd then UserAutoneg.default else autoneg)
  unfolding parse_autoneg is_str
  parse_autoneg-edit true autoneg config inj =
      rw (parse_autoneg, get-edit_autoneg true (user_autoneg_name autoneg) config) refl
  parse_autoneg-edit false UserAutoneg.off config inj =
      let name = user_autoneg_name in
      ground (
        arith,
        get-edit_autoneg false (name UserAutoneg.off) config,
        str_eq_refl (name UserAutoneg.off),
        strcmp_iff (name UserAutoneg.default) (name UserAutoneg.off),
        inj UserAutoneg.default UserAutoneg.off,
      )
  parse_autoneg-edit false UserAutoneg.on config inj =
      let name = user_autoneg_name in
      ground (
        arith,
        get-edit_autoneg false (name UserAutoneg.on) config,
        str_eq_refl (name UserAutoneg.on),
        strcmp_iff (name UserAutoneg.default) (name UserAutoneg.on),
        inj UserAutoneg.default UserAutoneg.on,
        str_eq_iff (name UserAutoneg.on) (name UserAutoneg.off),
        inj UserAutoneg.on UserAutoneg.off,
      )
  parse_autoneg-edit false UserAutoneg.default config inj =
      let name = user_autoneg_name in
      ground (
        arith,
        get-edit_autoneg false (name UserAutoneg.default) config,
        strcmp_refl (name UserAutoneg.default),
      )

  -- Where the values of a column differ: after "no shutdown" the daemon reads that the user wants the
  -- interface up and after "shutdown" that it shall be down; after "autonegotiation" it reads the
  -- value given, and the default after a "no"; after "duplex" half, unless the argument is full or
  -- there was a "no".
  pub edit-parse :
      (no_cmd : Bool) (config : Smap) (autoneg : UserAutoneg) (duplex : CString)
      → str_eq admin_down admin_up ≡ false
      → ((a b : UserAutoneg) → user_autoneg_name a ≡ user_autoneg_name b → a ≡ b)
      → (parse_admin (edit_admin no_cmd config) ≡ (if no_cmd then UserAdmin.up else UserAdmin.down))
        × (parse_autoneg (edit_autoneg no_cmd (user_autoneg_name autoneg) config)
            ≡ (if no_cmd then UserAutoneg.default else autoneg))
        × (parse_duplex (edit_duplex no_cmd duplex config) ≡ (
            if no_cmd || strcmp_is_zero duplex (bytes "full")
            then UserDuplex.full
            else UserDuplex.half))
  edit-parse no_cmd config autoneg duplex differ inj = (
    parse_admin-edit no_cmd config differ,
    parse_autoneg-edit no_cmd autoneg config inj,
    parse_duplex-edit no_cmd duplex config,
  )

  -- An MTU that the command accepts, that has digits alone and is not the word for the default, is
  -- what the daemon reads, where the subsystem allows 9192.
  pub edit_mtu-parse :
      (base_mtu : ℤ) (arg : CString) (config : Smap)
      → accepts_mtu arg ≡ true
      → is_a_number arg ≡ true
      → strcmp_is_zero mtu_default arg ≡ false
      → ltbℤ base_mtu (pos 9192) ≡ false
      → parse_user_mtu base_mtu
          (smap_get (edit_mtu false arg config) (user_config_key UserConfigKey.mtu))
        ≡ strtol arg
  unfolding edit_mtu accepts_mtu parse_user_mtu
  edit_mtu-parse base_mtu arg config accepted digits named wide =
      let key = user_config_key UserConfigKey.mtu in
      let same : atoi arg ≡ strtol arg = strtol-atoi arg digits (ground arith) (ground arith) in
      rw (edit_mtu, named, get-replaced config key arg, parse_user_mtu, digits, same)
        (fits base_mtu (strtol arg) (ground arith) (ground arith) wide)

-- ===== src/Cli/OnlyKey/Edits.antt =====
-- The commands of src/cli/intf_vty.c that edit the column user_config of an interface: what each makes of
-- the column, and what the command may answer.
use ops_intfd.Prelude.{
  ◌≡◌, refl, sym, ap, ◌∙◌, Bool, true, false, ◌&&◌, ◌||◌, not, Option, some, if◌then◌else◌, inl,
  inr, OnSome, List, [], ◌∷◌, Bool-cases, Option-cases, OnSome-if, arith,
}
use ops_intfd.CString.{CString, bytes, strcmp_is_zero, strtok}
use ops_intfd.CString.Equality.{strcmp_sound}
use ops_intfd.Smap.{Smap, smap_get}
use ops_intfd.Smap.Laws.{get-remove, get-replace, get-removed, get-replaced}
use ops_intfd.Schema.{Idl, UserConfigKey, UserAutoneg, UserPause, UserDuplex}
use ops_intfd.Database.{Ifrow}
use ops_intfd.Daemon.{Rows}
use ops_intfd.Cli.{Session, config_command, unless_split}
use ops_intfd.Cli.Effect.{IsAnswer, config_command-IsAnswer}
use ops_intfd.Cli.FlowControl.{of_directions, get-edit_flowcontrol}
use ops_intfd.Cli.Commands.{
  occurs_token, is_unset_or, new_pause, edit_speed, edit_mtu, edit_duplex, edit_autoneg,
  edit_flowcontrol, accepts_mtu, cli_intf_speed, cli_intf_mtu, cli_intf_duplex, cli_intf_autoneg,
  cli_intf_flowcontrol,
}
use ops_intfd.Cli.OnlyKey.{
  Command, speed, mtu, duplex, autonegotiation, flowcontrol, key_of, run_command, IsListed,
  IsAllowed, new_value, HasNewValue, value_lem, other_lem, edit_flowcontrol-other,
}

module _ ⦃idl : Idl⦄ where
  open idl use {
    user_config_key, user_duplex_name, user_autoneg_name, user_pause_name, speeds_default,
    mtu_default,
  }

  occurs_token-IsListed :
      (arg : CString) (tokens : List CString) → occurs_token arg tokens ≡ true → IsListed arg tokens
  unfolding occurs_token
  occurs_token-IsListed arg [] h = absurd (cc h)
  occurs_token-IsListed arg (token ∷ tokens) h = elim (Bool-cases (strcmp_is_zero token arg)) [
    | inl e ↦ inl (strcmp_sound token arg e)
    | inr e ↦ inr (occurs_token-IsListed arg tokens (ground arith))
  ]

  -- What an edit of the command makes of the row.
  abbrev Edits : Command → Bool → (Ifrow → Option Smap) → Type 0
  Edits c no_cmd edit =
      (row : Ifrow) (config : Smap)
      → edit row ≡ some config
      → IsAllowed c no_cmd row
        × (smap_get config (user_config_key (key_of c)) ≡ new_value c no_cmd row)
        × ((other : CString)
            → strcmp_is_zero (user_config_key (key_of c)) other ≡ false
            → smap_get config other ≡ smap_get row.user_config other)

  some_lem : {config config' : Smap} → Option.some config' ≡ some config → config' ≡ config
  some_lem h = cc h

  edit_speed-value :
      (no_cmd : Bool) (arg : CString) (row : Ifrow) (config : Smap)
      → edit_speed no_cmd arg row ≡ some config
      → smap_get config (user_config_key UserConfigKey.speeds) ≡ new_value (speed arg) no_cmd row
  unfolding edit_speed
  edit_speed-value no_cmd arg row config e =
      let k = user_config_key UserConfigKey.speeds in
      ground (arith, get-removed row.user_config k, get-replaced row.user_config k arg)

  edit_speed-other :
      (no_cmd : Bool) (arg : CString) (row : Ifrow) (config : Smap) (other : CString)
      → edit_speed no_cmd arg row ≡ some config
      → strcmp_is_zero (user_config_key UserConfigKey.speeds) other ≡ false
      → smap_get config other ≡ smap_get row.user_config other
  unfolding edit_speed
  edit_speed-other no_cmd arg row config other e h =
      let k = user_config_key UserConfigKey.speeds in
      ground (arith, get-replace row.user_config k other arg, get-remove row.user_config k other)

  edit_speed-occurs :
      (no_cmd : Bool) (arg speeds : CString) (row : Ifrow) (config : Smap)
      → edit_speed no_cmd arg row ≡ some config
      → (no_cmd || strcmp_is_zero speeds_default arg) ≡ false
      → smap_get row.hw_intf_info (bytes "speeds") ≡ some speeds
      → occurs_token arg (strtok b',' speeds) ≡ true
  unfolding edit_speed
  edit_speed-occurs no_cmd arg speeds row config e asked listed = ground arith

  edit_speed-IsAllowed :
      (no_cmd : Bool) (arg : CString) (row : Ifrow) (config : Smap)
      → edit_speed no_cmd arg row ≡ some config
      → IsAllowed (speed arg) no_cmd row
  edit_speed-IsAllowed no_cmd arg row config e =
      elim (Bool-cases (no_cmd || strcmp_is_zero speeds_default arg)) [
        | inl reset ↦ inl reset
        | inr asked ↦ elim (Option-cases (smap_get row.hw_intf_info (bytes "speeds"))) [
          | inl unlisted ↦ inr (rw unlisted tt)
          | inr (speeds, listed) ↦ inr (
              rw listed (
                occurs_token-IsListed arg (strtok b',' speeds)
                  (edit_speed-occurs no_cmd arg speeds row config e asked listed)))
        ]
      ]

  edit_speed-Edits :
      (no_cmd : Bool) (arg : CString) → Edits (speed arg) no_cmd (edit_speed no_cmd arg)
  edit_speed-Edits no_cmd arg row config e = (
    edit_speed-IsAllowed no_cmd arg row config e,
    edit_speed-value no_cmd arg row config e,
    λ other h. edit_speed-other no_cmd arg row config other e h,
  )

  -- An edit that reads nothing but the column, and always removes or replaces the key.
  key-Edits :
      (c : Command) (no_cmd : Bool) (edit : Smap → Smap)
      → ((row : Ifrow) → IsAllowed c no_cmd row)
      → ((row : Ifrow)
          → smap_get (edit row.user_config) (user_config_key (key_of c)) ≡ new_value c no_cmd row)
      → ((config : Smap) (other : CString)
          → strcmp_is_zero (user_config_key (key_of c)) other ≡ false
          → smap_get (edit config) other ≡ smap_get config other)
      → Edits c no_cmd (λ row. some (edit row.user_config))
  key-Edits c no_cmd edit allowed value others row config e =
      let same = some_lem e in
      (
        allowed row,
        ap (λ m. smap_get m (user_config_key (key_of c))) (sym same) ∙ value row,
        λ other h. ap (λ m. smap_get m other) (sym same) ∙ others row.user_config other h,
      )

  edit_mtu-Edits :
      (no_cmd : Bool) (arg : CString)
      → Edits (mtu arg) no_cmd (λ row. some (edit_mtu no_cmd arg row.user_config))
  unfolding edit_mtu
  edit_mtu-Edits no_cmd arg =
      let k = user_config_key UserConfigKey.mtu in
      let reset = no_cmd || strcmp_is_zero mtu_default arg in
      key-Edits (mtu arg) no_cmd (edit_mtu no_cmd arg) (λ row. tt)
        (λ row. value_lem reset row.user_config k arg)
        (λ config other h. other_lem reset config k arg other h)

  edit_duplex-Edits :
      (no_cmd : Bool) (arg : CString)
      → Edits (duplex arg) no_cmd (λ row. some (edit_duplex no_cmd arg row.user_config))
  unfolding edit_duplex
  edit_duplex-Edits no_cmd arg =
      let k = user_config_key UserConfigKey.duplex in
      let half = user_duplex_name UserDuplex.half in
      let reset = no_cmd || strcmp_is_zero arg (bytes "full") in
      key-Edits (duplex arg) no_cmd (edit_duplex no_cmd arg) (λ row. tt)
        (λ row. value_lem reset row.user_config k half)
        (λ config other h. other_lem reset config k half other h)

  edit_autoneg-Edits :
      (no_cmd : Bool) (arg : CString)
      → Edits (autonegotiation arg) no_cmd (λ row. some (edit_autoneg no_cmd arg row.user_config))
  unfolding edit_autoneg
  edit_autoneg-Edits no_cmd arg =
      let k = user_config_key UserConfigKey.autoneg in
      let reset = no_cmd || strcmp_is_zero (user_autoneg_name UserAutoneg.default) arg in
      key-Edits (autonegotiation arg) no_cmd (edit_autoneg no_cmd arg) (λ row. tt)
        (λ row. value_lem reset row.user_config k arg)
        (λ config other h. other_lem reset config k arg other h)

  -- The choice of the value, direction by direction.
  new_pause-directions :
      (direction state : CString) (value : Option CString)
      → new_pause direction state value ≡ (
          if strcmp_is_zero direction (bytes "send")
          then of_directions
              (not (is_unset_or value UserPause.tx))
              (strcmp_is_zero state (bytes "on"))
          else of_directions
              (strcmp_is_zero state (bytes "on"))
              (not (is_unset_or value UserPause.rx)))
  unfolding new_pause
  new_pause-directions direction state value = ground arith

  module _ (inj : (a b : UserPause) → user_pause_name a ≡ user_pause_name b → a ≡ b) where
    edit_flowcontrol-Edits :
        (no_cmd : Bool) (direction state : CString)
        → Edits
            (flowcontrol direction state)
            no_cmd
            (λ row. some (edit_flowcontrol direction state row.user_config))
    edit_flowcontrol-Edits no_cmd direction state =
        key-Edits (flowcontrol direction state) no_cmd (edit_flowcontrol direction state)
          (λ row. tt)
          (λ row. get-edit_flowcontrol inj direction state row.user_config _ (
            new_pause-directions direction state
              (smap_get row.user_config (user_config_key UserConfigKey.pause))))
          (edit_flowcontrol-other direction state)

    command_lem :
        (c : Command) (always : Bool) (s : Session) (edit : Ifrow → Option Smap)
        → Edits c s.no_cmd edit
        → (rows : Rows)
        → OnSome
            (IsAnswer (HasNewValue c s.no_cmd) s rows)
            (config_command always s (unless_split edit) rows)
    command_lem c always s edit edits =
        config_command-IsAnswer (HasNewValue c s.no_cmd) (unless_split edit)
          (λ row config h.
            let (allowed, value, others) = edits row config (ground arith) in
            (ground arith, allowed, value, others))
          always s

    -- Where the names of the values of pause differ, and whatever the arguments, the flag for "no" and
    -- the transaction do: the command leaves the rows as they were, or it succeeds with a commit. Then
    -- the first row of the name is of an interface that is not split, and if a speed is set and the
    -- hardware lists speeds, it lists that one; the command's key in its column user_config has the
    -- new value, and everything else in the rows is as it was. The new value is none for "no" and for
    -- the default, which is full for duplex, and else the argument; but a speed is left as it was
    -- where the hardware lists none. Of flowcontrol, which has no "no", it has the direction that was
    -- named as it was asked for, and the other is off exactly where the key was unset or held the
    -- direction that was named.
    pub run_command-IsAnswer :
        (c : Command) (s : Session) (rows : Rows)
        → OnSome (IsAnswer (HasNewValue c s.no_cmd) s rows) (run_command c s rows)
    unfolding cli_intf_speed cli_intf_mtu cli_intf_duplex cli_intf_autoneg cli_intf_flowcontrol
    run_command-IsAnswer (speed arg) s rows =
        command_lem (speed arg) true s (edit_speed s.no_cmd arg) (edit_speed-Edits s.no_cmd arg)
          rows
    run_command-IsAnswer (mtu arg) s rows =
        OnSome-if _ (not s.no_cmd && not (accepts_mtu arg)) _ _ (inl refl)
          (command_lem (mtu arg) false s _ (edit_mtu-Edits s.no_cmd arg) rows)
    run_command-IsAnswer (duplex arg) s rows =
        command_lem (duplex arg) true s _ (edit_duplex-Edits s.no_cmd arg) rows
    run_command-IsAnswer (autonegotiation arg) s rows =
        command_lem (autonegotiation arg) true s _ (edit_autoneg-Edits s.no_cmd arg) rows
    run_command-IsAnswer (flowcontrol direction state) s rows =
        command_lem (flowcontrol direction state) true s _
          (edit_flowcontrol-Edits s.no_cmd direction state) rows

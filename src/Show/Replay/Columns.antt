-- ===== src/Show/Replay/Columns.antt =====
-- The functions that show user_config, and the map that their lines make when they are run.
use ops_intfd.Prelude.{
  Bool, true, false, ◌||◌, Option, none, some, List, [], ◌∷◌, ◌++◌, ◌≡◌, ◌≢◌, refl, ◌∙◌, ◌⊎◌, inl,
  inr, if◌then◌else◌, OnSome, Bool-cases, arith,
}
use ops_intfd.CString.{CString, bytes, strcmp_is_zero, strtok}
use ops_intfd.CString.Equality.{strcmp_iff, strcmp_refl}
use ops_intfd.Smap.{smap_get, smap_replace}
use ops_intfd.Schema.{Idl, UserConfigKey, UserAutoneg, UserPause, UserDuplex}
use ops_intfd.Database.{Ifrow}
use ops_intfd.Cli.Commands.{accepts_mtu, occurs_token, edit_flowcontrol}
use ops_intfd.Cli.OnlyKey.{Command}
use ops_intfd.Cli.FlowControl.{
  stored, new_pause-of_directions, direction_arg, of_directions, receives, sends,
}
use ops_intfd.Show.{Line, no_shutdown, setting, Out, say, holds}
use ops_intfd.Show.Context.{
  say_other, value_of, show_admin, show_pause_value, show_autoneg_value, flowcontrol_on,
}
use ops_intfd.Show.Replay.Steps.{
  UserConfigKey-discrete, run_no_shutdown, run_speed, run_mtu, run_duplex, run_autoneg,
  run_flowcontrol,
}
use ops_intfd.Show.Replay.Profile.{
  Profile, put, Replayed, Does, say-Replayed, emit-Replayed, replace-HasProfile,
  flowcontrol-HasProfile, Replayed-put_same,
}

put_twice :
    (w : Profile) (k : UserConfigKey) (a b : Option CString) (j : UserConfigKey)
    → put (put w k a) k b j ≡ put w k b j
put_twice w k a b j = ground arith

strcmp_sym : (s t : CString) → strcmp_is_zero s t ≡ strcmp_is_zero t s
strcmp_sym s t = ground (arith, strcmp_iff s t, strcmp_iff t s)

module _ ⦃idl : Idl⦄ where
  open idl use {
    user_config_key, user_autoneg_name, user_pause_name, user_duplex_name, admin_up, speeds_default,
    mtu_default,
  }

  -- A speed that the command accepts on the interface.
  abbrev pub IsOffered : Ifrow → CString → Type 0
  IsOffered row v =
      (strcmp_is_zero v speeds_default ≡ false)
      × ((list : CString) × (smap_get row.hw_intf_info (bytes "speeds") ≡ some list)
          × (occurs_token v (strtok b',' list) ≡ true))

  abbrev pub IsAccepted : CString → Type 0
  IsAccepted v = (strcmp_is_zero v mtu_default ≡ false) × (accepts_mtu v ≡ true)

  -- The column user_config as the commands leave it on an interface that is not split.
  pub record IsStored (row : Ifrow) (pause : UserPause) : Type 0 where
    pub whole : value_of row UserConfigKey.lane_split ≡ none
    pub speeds_stored : OnSome (IsOffered row) (value_of row UserConfigKey.speeds)
    pub mtu_stored : OnSome IsAccepted (value_of row UserConfigKey.mtu)
    pub duplex_stored :
        (value_of row UserConfigKey.duplex ≡ none)
        ⊎ (value_of row UserConfigKey.duplex ≡ some (user_duplex_name UserDuplex.half))
    pub pause_stored : value_of row UserConfigKey.pause ≡ stored pause

  -- What is made again of the value of admin and of autoneg.
  abbrev pub kept_admin : Option CString → Option CString
  kept_admin v = if holds v admin_up then some admin_up else none

  abbrev pub kept_autoneg : Option CString → Option CString
  kept_autoneg none = none
  kept_autoneg (some v) =
      if strcmp_is_zero v (user_autoneg_name UserAutoneg.default)
        || strcmp_is_zero v (user_autoneg_name UserAutoneg.on)
      then none
      else some v

  module _ (inj : (a b : UserConfigKey) → user_config_key a ≡ user_config_key b → a ≡ b)
      (row : Ifrow) (out : Out) (w : Profile) (whole : w UserConfigKey.lane_split ≡ none)
      (done : Replayed row out.lines w) where
    pub show_admin-Replayed :
        w UserConfigKey.admin ≡ none
        → Replayed row
            (show_admin row out).lines
            (put w UserConfigKey.admin (kept_admin (value_of row UserConfigKey.admin)))
    unfolding show_admin
    show_admin-Replayed before =
        elim (Bool-cases (holds (value_of row UserConfigKey.admin) admin_up)) [
          | inl e ↦ rw e (
              say-Replayed row row.name no_shutdown out w _
                (λ config h. (
                  smap_replace config (user_config_key UserConfigKey.admin) admin_up,
                  run_no_shutdown row config,
                  replace-HasProfile inj config w UserConfigKey.admin admin_up h,
                ))
                done)
          | inr e ↦ rw e (Replayed-put_same row out.lines w UserConfigKey.admin none before done)
        ]

    pub show_speed-Replayed :
        (v : Option CString)
        → OnSome (IsOffered row) v
        → w UserConfigKey.speeds ≡ none
        → Replayed row
            (say_other row.name v speeds_default (λ value. setting (Command.speed value)) out).lines
            (put w UserConfigKey.speeds v)
    unfolding say_other
    show_speed-Replayed none h before =
        Replayed-put_same row out.lines w UserConfigKey.speeds none before done
    show_speed-Replayed (some v) (differ, (list, offered, occurs)) before = rw differ (
        say-Replayed row row.name (setting (Command.speed v)) out w _
          (λ config h. (
            smap_replace config (user_config_key UserConfigKey.speeds) v,
            run_speed row config (h UserConfigKey.lane_split ∙ whole) v list
                (strcmp_sym speeds_default v ∙ differ) offered occurs,
            replace-HasProfile inj config w UserConfigKey.speeds v h,
          ))
          done)

    pub show_mtu-Replayed :
        (v : Option CString)
        → OnSome IsAccepted v
        → w UserConfigKey.mtu ≡ none
        → Replayed row
            (say_other row.name v mtu_default (λ value. setting (Command.mtu value)) out).lines
            (put w UserConfigKey.mtu v)
    unfolding say_other
    show_mtu-Replayed none h before =
        Replayed-put_same row out.lines w UserConfigKey.mtu none before done
    show_mtu-Replayed (some v) (differ, accepted) before = rw differ (
        say-Replayed row row.name (setting (Command.mtu v)) out w _
          (λ config h. (
            smap_replace config (user_config_key UserConfigKey.mtu) v,
            run_mtu row config (h UserConfigKey.lane_split ∙ whole) v
                (strcmp_sym mtu_default v ∙ differ) accepted,
            replace-HasProfile inj config w UserConfigKey.mtu v h,
          ))
          done)

    pub show_duplex-Replayed :
        (v : Option CString)
        → strcmp_is_zero (user_duplex_name UserDuplex.half) (user_duplex_name UserDuplex.full)
          ≡ false
        → strcmp_is_zero (user_duplex_name UserDuplex.half) (bytes "full") ≡ false
        → (v ≡ none) ⊎ (v ≡ some (user_duplex_name UserDuplex.half))
        → w UserConfigKey.duplex ≡ none
        → Replayed row
            (say_other row.name v
              (user_duplex_name UserDuplex.full)
              (λ value. setting (Command.duplex value))
              out).lines
            (put w UserConfigKey.duplex v)
    unfolding say_other
    show_duplex-Replayed v differ literal (inl e) before =
        rw e (Replayed-put_same row out.lines w UserConfigKey.duplex none before done)
    show_duplex-Replayed v differ literal (inr e) before =
        let half = user_duplex_name UserDuplex.half in
        rw (e, say_other, differ)
          (say-Replayed row row.name (setting (Command.duplex half)) out w _
            (λ config h. (
              smap_replace config (user_config_key UserConfigKey.duplex) half,
              run_duplex row config (h UserConfigKey.lane_split ∙ whole) half literal,
              replace-HasProfile inj config w UserConfigKey.duplex half h,
            ))
            done)

    pub show_autoneg-Replayed :
        (v : Option CString)
        → w UserConfigKey.autoneg ≡ none
        → Replayed row
            (show_autoneg_value row.name v out).lines
            (put w UserConfigKey.autoneg (kept_autoneg v))
    show_autoneg-Replayed none before =
        Replayed-put_same row out.lines w UserConfigKey.autoneg none before done
    show_autoneg-Replayed (some v) before =
        let default = user_autoneg_name UserAutoneg.default in
        elim (Bool-cases
          (strcmp_is_zero v default || strcmp_is_zero v (user_autoneg_name UserAutoneg.on))) [
            | inl e ↦
                rw e (Replayed-put_same row out.lines w UserConfigKey.autoneg none before done)
            | inr e ↦
                let differ : strcmp_is_zero v default ≡ false = ground arith in
                rw e (
                  say-Replayed row row.name (setting (Command.autonegotiation v)) out w _
                    (λ config h. (
                      smap_replace config (user_config_key UserConfigKey.autoneg) v,
                      run_autoneg row config (h UserConfigKey.lane_split ∙ whole) v
                          (strcmp_sym default v ∙ differ),
                      replace-HasProfile inj config w UserConfigKey.autoneg v h,
                    ))
                    done)
          ]

    module _ (pause_inj : (a b : UserPause) → user_pause_name a ≡ user_pause_name b → a ≡ b) where
      pause_differ :
          (a b : UserPause) → a ≢ b → strcmp_is_zero (user_pause_name a) (user_pause_name b) ≡ false
      pause_differ a b n =
          ground (arith, strcmp_iff (user_pause_name a) (user_pause_name b), pause_inj a b)

      -- Flow control turned on in one direction.
      direction-Does :
          (is_send : Bool) (w' : Profile) (p : UserPause)
          → w' UserConfigKey.lane_split ≡ none
          → w' UserConfigKey.pause ≡ stored p
          → Does row (flowcontrol_on (direction_arg is_send)) w' (
              put w' UserConfigKey.pause (
                stored (
                  of_directions
                    (if is_send then receives p else true)
                    (if is_send then true else sends p))))
      direction-Does is_send w' p whole' before config h = (
        edit_flowcontrol (direction_arg is_send) (bytes "on") config,
        run_flowcontrol row config (h UserConfigKey.lane_split ∙ whole') (direction_arg is_send)
            (bytes "on"),
        flowcontrol-HasProfile inj pause_inj (direction_arg is_send) (bytes "on") config w' p _
            before (new_pause-of_directions pause_inj is_send true p) h,
      )

      pub show_pause-Replayed :
          (p : UserPause)
          → w UserConfigKey.pause ≡ none
          → Replayed row
              (show_pause_value row.name (stored p) out).lines
              (put w UserConfigKey.pause (stored p))
      unfolding UserConfigKey-discrete
      show_pause-Replayed UserPause.no_pause before =
          Replayed-put_same row out.lines w UserConfigKey.pause none before done
      show_pause-Replayed UserPause.rx before =
          rw
            (
              pause_differ UserPause.rx UserPause.no_pause (λ e. absurd (cc e)),
              strcmp_refl (user_pause_name UserPause.rx),
            )
            (say-Replayed row row.name (flowcontrol_on (bytes "receive")) out w _
              (direction-Does false w UserPause.no_pause whole before) done)
      show_pause-Replayed UserPause.tx before =
          rw
            (
              pause_differ UserPause.tx UserPause.no_pause (λ e. absurd (cc e)),
              pause_differ UserPause.tx UserPause.rx (λ e. absurd (cc e)),
              strcmp_refl (user_pause_name UserPause.tx),
            )
            (say-Replayed row row.name (flowcontrol_on (bytes "send")) out w _
              (direction-Does true w UserPause.no_pause whole before) done)
      show_pause-Replayed UserPause.rxtx before =
          let w' = put w UserConfigKey.pause (stored UserPause.rx) in
          let headed = say row.name (flowcontrol_on (bytes "receive")) out in
          let first : Replayed row headed.lines w' =
            say-Replayed row row.name (flowcontrol_on (bytes "receive")) out w w'
              (direction-Does false w UserPause.no_pause whole before) done in
          rw
            (
              pause_differ UserPause.rxtx UserPause.no_pause (λ e. absurd (cc e)),
              pause_differ UserPause.rxtx UserPause.rx (λ e. absurd (cc e)),
              pause_differ UserPause.rxtx UserPause.tx (λ e. absurd (cc e)),
            )
            (twice first)
        where
          twice :
              {lines : List Line}
              → Replayed row lines (put w UserConfigKey.pause (stored UserPause.rx))
              → Replayed row
                  (lines ++ flowcontrol_on (bytes "send") ∷ [])
                  (put w UserConfigKey.pause (stored UserPause.rxtx))
          twice {lines} r =
              let second =
                emit-Replayed row (flowcontrol_on (bytes "send")) lines
                  (put w UserConfigKey.pause (stored UserPause.rx)) _
                  (direction-Does true (put w UserConfigKey.pause (stored UserPause.rx))
                    UserPause.rx whole refl)
                  r in
              record {
                config = second.config;
                ran = second.ran;
                values = λ j.
                    second.values j
                    ∙ put_twice w UserConfigKey.pause (stored UserPause.rx) (stored UserPause.rxtx)
                        j;
              }

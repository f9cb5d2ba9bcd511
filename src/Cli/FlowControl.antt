-- ===== src/Cli/FlowControl.antt =====
-- The command flowcontrol of src/cli/intf_vty.c and the parser of the daemon: each direction is set on
-- its own.
use ops_intfd.Prelude.{
  ◌≡◌, ◌≢◌, refl, ap, ◌∙◌, Bool, true, false, not, Option, none, some, if◌then◌else◌, arith,
}
use ops_intfd.CString.{CString, bytes, strcmp_is_zero, is_str, str_eq}
use ops_intfd.CString.Equality.{strcmp_iff, str_eq_iff, str_eq_refl, strcmp_refl}
use ops_intfd.Smap.{Smap, smap_get}
use ops_intfd.Smap.Laws.{get-removed, get-replaced}
use ops_intfd.Schema.{Idl, UserConfigKey, UserPause}
use ops_intfd.Parse.UserCfg.{parse_pause}
use ops_intfd.Cli.Commands.{edit_flowcontrol, new_pause, is_unset_or}

-- Whether an interface honours pause frames, and whether it sends them.
abbrev pub receives : UserPause → Bool
receives UserPause.no_pause = false
receives UserPause.rxtx = true
receives UserPause.tx = false
receives UserPause.rx = true

abbrev pub sends : UserPause → Bool
sends UserPause.no_pause = false
sends UserPause.rxtx = true
sends UserPause.tx = true
sends UserPause.rx = false

-- Both directions together.
abbrev pub of_directions : Bool → Bool → UserPause
of_directions true true = UserPause.rxtx
of_directions true false = UserPause.rx
of_directions false true = UserPause.tx
of_directions false false = UserPause.no_pause

abbrev pub direction_arg : Bool → CString
direction_arg is_send = if is_send then bytes "send" else bytes "receive"

abbrev pub state_arg : Bool → CString
state_arg on = if on then bytes "on" else bytes "off"

module _ ⦃idl : Idl⦄ where
  open idl use {user_config_key, user_pause_name}

  -- What the command leaves in the column: no value for no flow control.
  abbrev pub stored : UserPause → Option CString
  stored UserPause.no_pause = none
  stored UserPause.rxtx = some (user_pause_name UserPause.rxtx)
  stored UserPause.tx = some (user_pause_name UserPause.tx)
  stored UserPause.rx = some (user_pause_name UserPause.rx)

  new_pause_lem :
      (is_send on r s : Bool) (value : Option CString)
      → is_unset_or value UserPause.tx ≡ not r
      → is_unset_or value UserPause.rx ≡ not s
      → new_pause (direction_arg is_send) (state_arg on) value
        ≡ of_directions (if is_send then r else on) (if is_send then on else s)
  unfolding new_pause strcmp_is_zero
  new_pause_lem true true r s value ht hr = ground arith
  new_pause_lem true false r s value ht hr = ground arith
  new_pause_lem false true r s value ht hr = ground arith
  new_pause_lem false false r s value ht hr = ground arith

  module _ (inj : (a b : UserPause) → user_pause_name a ≡ user_pause_name b → a ≡ b) where
    strcmp_differ :
        (a b : UserPause) → a ≢ b → strcmp_is_zero (user_pause_name a) (user_pause_name b) ≡ false
    strcmp_differ a b h =
        ground (arith, strcmp_iff (user_pause_name a) (user_pause_name b), inj a b)

    str_eq_differ :
        (a b : UserPause) → a ≢ b → str_eq (user_pause_name a) (user_pause_name b) ≡ false
    str_eq_differ a b h =
        ground (arith, str_eq_iff (user_pause_name a) (user_pause_name b), inj a b)

    unset_tx : (p : UserPause) → is_unset_or (stored p) UserPause.tx ≡ not (receives p)
    unset_tx UserPause.no_pause = refl
    unset_tx UserPause.rxtx = strcmp_differ UserPause.rxtx UserPause.tx (λ e. absurd (cc e))
    unset_tx UserPause.tx = strcmp_refl (user_pause_name UserPause.tx)
    unset_tx UserPause.rx = strcmp_differ UserPause.rx UserPause.tx (λ e. absurd (cc e))

    unset_rx : (p : UserPause) → is_unset_or (stored p) UserPause.rx ≡ not (sends p)
    unset_rx UserPause.no_pause = refl
    unset_rx UserPause.rxtx = strcmp_differ UserPause.rxtx UserPause.rx (λ e. absurd (cc e))
    unset_rx UserPause.tx = strcmp_differ UserPause.tx UserPause.rx (λ e. absurd (cc e))
    unset_rx UserPause.rx = strcmp_refl (user_pause_name UserPause.rx)

    pub new_pause-of_directions :
        (is_send on : Bool) (p : UserPause)
        → new_pause (direction_arg is_send) (state_arg on) (stored p)
          ≡ of_directions (if is_send then receives p else on) (if is_send then on else sends p)
    new_pause-of_directions is_send on p =
        new_pause_lem is_send on (receives p) (sends p) (stored p) (unset_tx p) (unset_rx p)

    pub get-edit_flowcontrol :
        (direction state : CString) (config : Smap) (q : UserPause)
        → new_pause direction state (smap_get config (user_config_key UserConfigKey.pause)) ≡ q
        → smap_get (edit_flowcontrol direction state config) (user_config_key UserConfigKey.pause)
          ≡ stored q
    unfolding edit_flowcontrol
    get-edit_flowcontrol direction state config UserPause.no_pause h =
        rw (edit_flowcontrol, h, strcmp_refl (user_pause_name UserPause.no_pause))
          (get-removed config (user_config_key UserConfigKey.pause))
    get-edit_flowcontrol direction state config UserPause.rxtx h =
        rw
          (
            edit_flowcontrol,
            h,
            strcmp_differ UserPause.rxtx UserPause.no_pause (λ e. absurd (cc e)),
          )
          (get-replaced config (user_config_key UserConfigKey.pause)
            (user_pause_name UserPause.rxtx))
    get-edit_flowcontrol direction state config UserPause.tx h =
        rw (edit_flowcontrol, h, strcmp_differ UserPause.tx UserPause.no_pause (λ e. absurd (cc e)))
          (get-replaced config (user_config_key UserConfigKey.pause) (user_pause_name UserPause.tx))
    get-edit_flowcontrol direction state config UserPause.rx h =
        rw (edit_flowcontrol, h, strcmp_differ UserPause.rx UserPause.no_pause (λ e. absurd (cc e)))
          (get-replaced config (user_config_key UserConfigKey.pause) (user_pause_name UserPause.rx))

    parse_pause-stored :
        (config : Smap) (p : UserPause)
        → smap_get config (user_config_key UserConfigKey.pause) ≡ stored p
        → parse_pause config ≡ p
    unfolding parse_pause is_str
    parse_pause-stored config UserPause.no_pause h = rw (parse_pause, h) refl
    parse_pause-stored config UserPause.rxtx h =
        rw (parse_pause, h, str_eq_refl (user_pause_name UserPause.rxtx)) refl
    parse_pause-stored config UserPause.tx h =
        rw
          (
            parse_pause,
            h,
            str_eq_differ UserPause.tx UserPause.rxtx (λ e. absurd (cc e)),
            str_eq_refl (user_pause_name UserPause.tx),
          )
          refl
    parse_pause-stored config UserPause.rx h =
        rw
          (
            parse_pause,
            h,
            str_eq_differ UserPause.rx UserPause.rxtx (λ e. absurd (cc e)),
            str_eq_differ UserPause.rx UserPause.tx (λ e. absurd (cc e)),
            str_eq_refl (user_pause_name UserPause.rx),
          )
          refl

    -- Where the names of the values differ and the column holds what the command leaves for `p`: the
    -- daemon reads `p` before the command, and after it the direction that was named as it was asked
    -- for and the other direction as it was.
    pub edit_flowcontrol-parse :
        (is_send on : Bool) (config : Smap) (p : UserPause)
        → smap_get config (user_config_key UserConfigKey.pause) ≡ stored p
        → (parse_pause config ≡ p)
          × (parse_pause (edit_flowcontrol (direction_arg is_send) (state_arg on) config)
              ≡ of_directions
                  (if is_send then receives p else on)
                  (if is_send then on else sends p))
    edit_flowcontrol-parse is_send on config p h =
        let q =
          of_directions (if is_send then receives p else on) (if is_send then on else sends p) in
        let chosen : new_pause (direction_arg is_send) (state_arg on)
              (smap_get config (user_config_key UserConfigKey.pause))
            ≡ q =
          ap (new_pause (direction_arg is_send) (state_arg on)) h
          ∙ new_pause-of_directions is_send on p in
        (
          parse_pause-stored config p h,
          parse_pause-stored (edit_flowcontrol (direction_arg is_send) (state_arg on) config) q
              (get-edit_flowcontrol (direction_arg is_send) (state_arg on) config q chosen),
        )

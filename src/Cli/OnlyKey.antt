-- ===== src/Cli/OnlyKey.antt =====
-- The commands of src/cli/intf_vty.c that edit the column user_config of an interface, as values, and what
-- each is to do to the column. Cli/OnlyKey/Edits has the proofs.
pub mod Edits
use ops_intfd.Prelude.{
  ◌≡◌, refl, sym, ap, ◌∙◌, Bool, true, false, ◌&&◌, ◌||◌, not, Option, none, some, if◌then◌else◌,
  inl, inr, ◌⊎◌, OnSome, List, [], ◌∷◌, Bool-cases, Option-cases, OnSome-if, arith,
}
use ops_intfd.CString.{CString, bytes, strcmp_is_zero, strtok}
use ops_intfd.CString.Equality.{strcmp_sound}
use ops_intfd.Smap.{Smap, smap_get, smap_replace, smap_remove}
use ops_intfd.Smap.Laws.{get-remove, get-replace, get-removed, get-replaced}
use ops_intfd.Schema.{Idl, UserConfigKey, UserAutoneg, UserPause, UserDuplex}
use ops_intfd.Database.{Ifrow}
use ops_intfd.Daemon.{Rows}
use ops_intfd.Cli.{Session, CmdResult, config_command, is_parent_interface_split, unless_split}
use ops_intfd.Cli.Effect.{IsAnswer, config_command-IsAnswer}
use ops_intfd.Cli.FlowControl.{stored, of_directions, get-edit_flowcontrol}
use ops_intfd.Cli.Commands.{
  occurs_token, is_unset_or, new_pause, edit_speed, edit_mtu, edit_duplex, edit_autoneg,
  edit_flowcontrol, accepts_mtu, cli_intf_speed, cli_intf_mtu, cli_intf_duplex, cli_intf_autoneg,
  cli_intf_flowcontrol,
}

-- A command with its arguments.
pub data Command : Type 0 where
  speed mtu duplex autonegotiation : CString → Command
  flowcontrol : CString → CString → Command

abbrev pub key_of : Command → UserConfigKey
key_of (speed arg) = UserConfigKey.speeds
key_of (mtu arg) = UserConfigKey.mtu
key_of (duplex arg) = UserConfigKey.duplex
key_of (autonegotiation arg) = UserConfigKey.autoneg
key_of (flowcontrol direction state) = UserConfigKey.pause

module _ ⦃idl : Idl⦄ where
  open idl use {
    user_config_key, user_duplex_name, user_autoneg_name, user_pause_name, speeds_default,
    mtu_default,
  }

  -- The handler of the command.
  abbrev pub run_command : Command → Session → Rows → Option (CmdResult × Rows)
  run_command (speed arg) = cli_intf_speed arg
  run_command (mtu arg) = cli_intf_mtu arg
  run_command (duplex arg) = cli_intf_duplex arg
  run_command (autonegotiation arg) = cli_intf_autoneg arg
  run_command (flowcontrol direction state) = cli_intf_flowcontrol direction state

  -- The speeds that the hardware lists, if it lists any, have the one that is asked for.
  abbrev pub IsListed : CString → List CString → Type 0
  IsListed arg [] = ⊥
  IsListed arg (token ∷ tokens) = (token ≡ arg) ⊎ IsListed arg tokens

  abbrev pub IsOffered : CString → Option CString → Type 0
  IsOffered arg none = Unit
  IsOffered arg (some speeds) = IsListed arg (strtok b',' speeds)

  abbrev pub IsAllowed : Command → Bool → Ifrow → Type 0
  IsAllowed (speed arg) no_cmd row =
      ((no_cmd || strcmp_is_zero speeds_default arg) ≡ true)
      ⊎ IsOffered arg (smap_get row.hw_intf_info (bytes "speeds"))
  IsAllowed _ no_cmd row = Unit

  -- What the key holds after the command: nothing for "no" and for the default; else the argument,
  -- but a speed is left as it was where the hardware lists none. The command flowcontrol has no
  -- "no": one direction is as asked for, and the other is on unless the column says otherwise.
  abbrev speed_value : CString → Option CString → Option CString → Option CString
  speed_value arg none old = old
  speed_value arg (some speeds) old = some arg

  abbrev pub new_value : Command → Bool → Ifrow → Option CString
  new_value (speed arg) no_cmd row =
      if no_cmd || strcmp_is_zero speeds_default arg
      then none
      else speed_value arg (smap_get row.hw_intf_info (bytes "speeds"))
          (smap_get row.user_config (user_config_key UserConfigKey.speeds))
  new_value (mtu arg) no_cmd row =
      if no_cmd || strcmp_is_zero mtu_default arg then none else some arg
  new_value (duplex arg) no_cmd row =
      if no_cmd || strcmp_is_zero arg (bytes "full")
      then none
      else some (user_duplex_name UserDuplex.half)
  new_value (autonegotiation arg) no_cmd row =
      if no_cmd || strcmp_is_zero (user_autoneg_name UserAutoneg.default) arg
      then none
      else some arg
  new_value (flowcontrol direction state) no_cmd row =
      let on = strcmp_is_zero state (bytes "on") in
      let value = smap_get row.user_config (user_config_key UserConfigKey.pause) in
      stored (
        if strcmp_is_zero direction (bytes "send")
        then of_directions (not (is_unset_or value UserPause.tx)) on
        else of_directions on (not (is_unset_or value UserPause.rx)))

  -- The interface is not split, the command may be used on it, its key has the new value, and the
  -- other keys have the values that they had.
  abbrev pub HasNewValue : Command → Bool → Ifrow → Smap → Type 0
  HasNewValue c no_cmd row config =
      (is_parent_interface_split row ≡ false)
      × IsAllowed c no_cmd row
      × (smap_get config (user_config_key (key_of c)) ≡ new_value c no_cmd row)
      × ((other : CString)
          → strcmp_is_zero (user_config_key (key_of c)) other ≡ false
          → smap_get config other ≡ smap_get row.user_config other)

  pub value_lem :
      (c : Bool) (m : Smap) (key value : CString)
      → smap_get (if c then smap_remove m key else smap_replace m key value) key
        ≡ (if c then none else some value)
  value_lem true m key value = get-removed m key
  value_lem false m key value = get-replaced m key value

  pub other_lem :
      (c : Bool) (m : Smap) (key value other : CString)
      → strcmp_is_zero key other ≡ false
      → smap_get (if c then smap_remove m key else smap_replace m key value) other
        ≡ smap_get m other
  other_lem true m key value other h = rw (get-remove m key other, h) refl
  other_lem false m key value other h = rw (get-replace m key other value, h) refl

  pub edit_flowcontrol-other :
      (direction state : CString) (config : Smap) (other : CString)
      → strcmp_is_zero (user_config_key UserConfigKey.pause) other ≡ false
      → smap_get (edit_flowcontrol direction state config) other ≡ smap_get config other
  unfolding edit_flowcontrol
  edit_flowcontrol-other direction state config other h =
      other_lem _ config (user_config_key UserConfigKey.pause) _ other h

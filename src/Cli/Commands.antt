-- ===== src/Cli/Commands.antt =====
-- The commands shutdown, speed, mtu, duplex, flowcontrol and autonegotiation of src/cli/intf_vty.c.
use ops_intfd.Prelude.{
  pos, ltbℤ, Bool, true, false, ◌&&◌, ◌||◌, not, Option, none, some, List, [], ◌∷◌, if◌then◌else◌,
}
use ops_intfd.CString.{CString, bytes, strcmp_is_zero, strtok}
use ops_intfd.CString.Strtol.{strtol, strtol_ends}
use ops_intfd.Smap.{Smap, smap_get, smap_replace, smap_remove}
use ops_intfd.Schema.{Idl, UserConfigKey, UserAutoneg, UserPause, UserDuplex}
use ops_intfd.Database.{Ifrow}
use ops_intfd.Daemon.{Rows, PortRow}
use ops_intfd.Cli.{
  Session, CmdResult, cmd_success, cmd_err_nothing_todo, config_command, unless_split,
}

unfoldable pub occurs_token : CString → List CString → Bool
occurs_token arg [] = false
occurs_token arg (token ∷ tokens) = strcmp_is_zero token arg || occurs_token arg tokens

-- The test of the argument of mtu.
unfoldable pub accepts_mtu : CString → Bool
accepts_mtu arg =
    strtol_ends arg && not (ltbℤ (strtol arg) (pos 576)) && not (ltbℤ (pos 9192) (strtol arg))

-- The first port of the name.
unfoldable pub set_port_admin : CString → CString → List PortRow → List PortRow
set_port_admin name admin [] = []
set_port_admin name admin (port ∷ ports) =
    let rest = set_port_admin name admin ports in
    if strcmp_is_zero port.name name
    then record port { admin = some admin } ∷ ports
    else port ∷ rest

module _ ⦃idl : Idl⦄ where
  open idl use {
    user_config_key, user_autoneg_name, user_pause_name, user_duplex_name, admin_up, admin_down,
    admin_state_up, admin_state_down, speeds_default, mtu_default,
  }

  unfoldable pub edit_admin : Bool → Smap → Smap
  edit_admin no_cmd config =
      smap_replace config (user_config_key UserConfigKey.admin)
        (if no_cmd then admin_up else admin_down)

  unfoldable pub edit_speed : Bool → CString → Ifrow → Option Smap
  unfolding occurs_token
  edit_speed no_cmd arg row =
      if no_cmd || strcmp_is_zero speeds_default arg
      then some (smap_remove row.user_config (user_config_key UserConfigKey.speeds))
      else elim (smap_get row.hw_intf_info (bytes "speeds")) [
        | none ↦ some row.user_config
        | some list ↦
            if occurs_token arg (strtok b',' list)
            then some (smap_replace row.user_config (user_config_key UserConfigKey.speeds) arg)
            else none
      ]

  unfoldable pub edit_mtu : Bool → CString → Smap → Smap
  edit_mtu no_cmd arg config =
      if no_cmd || strcmp_is_zero mtu_default arg
      then smap_remove config (user_config_key UserConfigKey.mtu)
      else smap_replace config (user_config_key UserConfigKey.mtu) arg

  unfoldable pub edit_duplex : Bool → CString → Smap → Smap
  edit_duplex no_cmd arg config =
      if no_cmd || strcmp_is_zero arg (bytes "full")
      then smap_remove config (user_config_key UserConfigKey.duplex)
      else smap_replace config (user_config_key UserConfigKey.duplex)
          (user_duplex_name UserDuplex.half)

  unfoldable pub edit_autoneg : Bool → CString → Smap → Smap
  edit_autoneg no_cmd arg config =
      if no_cmd || strcmp_is_zero (user_autoneg_name UserAutoneg.default) arg
      then smap_remove config (user_config_key UserConfigKey.autoneg)
      else smap_replace config (user_config_key UserConfigKey.autoneg) arg

  -- state_value == NULL, or it is the name
  abbrev pub is_unset_or : Option CString → UserPause → Bool
  is_unset_or none pause = true
  is_unset_or (some value) pause = strcmp_is_zero value (user_pause_name pause)

  -- The value that is copied to new_value.
  unfoldable pub new_pause : CString → CString → Option CString → UserPause
  new_pause direction state value =
      if strcmp_is_zero direction (bytes "send")
      then (if strcmp_is_zero state (bytes "on")
          then (if is_unset_or value UserPause.tx then UserPause.tx else UserPause.rxtx)
          else if is_unset_or value UserPause.tx
          then UserPause.no_pause
          else UserPause.rx)
      else if strcmp_is_zero state (bytes "on")
      then (if is_unset_or value UserPause.rx then UserPause.rx else UserPause.rxtx)
      else if is_unset_or value UserPause.rx
      then UserPause.no_pause
      else UserPause.tx

  unfoldable pub edit_flowcontrol : CString → CString → Smap → Smap
  unfolding new_pause
  edit_flowcontrol direction state config =
      let key = user_config_key UserConfigKey.pause in
      let value = user_pause_name (new_pause direction state (smap_get config key)) in
      if strcmp_is_zero value (user_pause_name UserPause.no_pause)
      then smap_remove config key
      else smap_replace config key value

  unfoldable pub cli_intf_shutdown :
      Session → Rows → List PortRow → Option (CmdResult × Rows × List PortRow)
  unfolding edit_admin set_port_admin config_command
  cli_intf_shutdown s rows ports =
      elim (config_command true s (λ row. some (edit_admin s.no_cmd row.user_config)) rows) [
        | none ↦ none
        | some (cmd_success, rows') ↦ some (
          cmd_success,
          rows',
          set_port_admin s.index (if s.no_cmd then admin_state_up else admin_state_down) ports,
        )
        | some (result, rows') ↦ some (result, rows', ports)
      ]

  unfoldable pub cli_intf_speed : CString → Session → Rows → Option (CmdResult × Rows)
  unfolding edit_speed config_command
  cli_intf_speed arg s = config_command true s (unless_split (edit_speed s.no_cmd arg))

  -- The argument is tested before the transaction is opened.
  unfoldable pub cli_intf_mtu : CString → Session → Rows → Option (CmdResult × Rows)
  unfolding edit_mtu accepts_mtu config_command
  cli_intf_mtu arg s rows =
      if not s.no_cmd && not (accepts_mtu arg)
      then some (cmd_err_nothing_todo, rows)
      else config_command false s
          (unless_split (λ row. some (edit_mtu s.no_cmd arg row.user_config))) rows

  unfoldable pub cli_intf_duplex : CString → Session → Rows → Option (CmdResult × Rows)
  unfolding edit_duplex config_command
  cli_intf_duplex arg s =
      config_command true s (unless_split (λ row. some (edit_duplex s.no_cmd arg row.user_config)))

  -- The flag for a "no" is not read: `state` is what argv[1] holds.
  unfoldable pub cli_intf_flowcontrol :
      CString → CString → Session → Rows → Option (CmdResult × Rows)
  unfolding edit_flowcontrol config_command
  cli_intf_flowcontrol direction state s =
      config_command true s
        (unless_split (λ row. some (edit_flowcontrol direction state row.user_config)))

  unfoldable pub cli_intf_autoneg : CString → Session → Rows → Option (CmdResult × Rows)
  unfolding edit_autoneg config_command
  cli_intf_autoneg arg s =
      config_command true s (unless_split (λ row. some (edit_autoneg s.no_cmd arg row.user_config)))

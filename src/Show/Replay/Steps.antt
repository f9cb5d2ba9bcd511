-- ===== src/Show/Replay/Steps.antt =====
-- What one line of show running-config does to the column user_config when it is run.
use ops_intfd.Prelude.{Bool, true, false, Option, none, some, ◌≡◌, refl}
use ops_intfd.CString.{CString, bytes, strcmp_is_zero, strtok}
use ops_intfd.CString.Equality.{strcmp_refl}
use ops_intfd.Smap.{Smap, smap_get, smap_replace}
use ops_intfd.Schema.{Idl, UserConfigKey, UserAutoneg, UserDuplex}
use ops_intfd.Database.{Ifrow}
use ops_intfd.Cli.{
  cmd_success, edit_row, finish_edit, config_command, unless_split, is_parent_interface_split,
}
use ops_intfd.Cli.Commands.{
  accepts_mtu, edit_admin, edit_speed, edit_mtu, edit_duplex, edit_autoneg, edit_flowcontrol,
  occurs_token, cli_intf_shutdown, cli_intf_speed, cli_intf_mtu, cli_intf_duplex,
  cli_intf_flowcontrol, cli_intf_autoneg,
}
use ops_intfd.Cli.OnlyKey.{Command}
use ops_intfd.Show.{no_shutdown, setting}
use ops_intfd.Show.Replay.{session_of, table_of, run_line}

unfoldable pub UserConfigKey-discrete : Discrete UserConfigKey
UserConfigKey-discrete = hlevel

module _ ⦃idl : Idl⦄ where
  open idl use {
    user_config_key, user_autoneg_name, user_pause_name, user_duplex_name, admin_up, speeds_default,
    mtu_default,
  }

  -- The interface is not split.
  abbrev pub IsWhole : Smap → Type 0
  IsWhole config = smap_get config (user_config_key UserConfigKey.lane_split) ≡ none

  not_split : (row : Ifrow) → IsWhole row.user_config → is_parent_interface_split row ≡ false
  unfolding is_parent_interface_split
  not_split row h = rw (is_parent_interface_split, h) refl

  config_command-one :
      (always no_cmd : Bool) (row : Ifrow) (config config' : Smap) (edit : Ifrow → Option Smap)
      → edit (record row { user_config = config }) ≡ some config'
      → config_command always (session_of row no_cmd) edit (table_of row config)
        ≡ some (cmd_success, table_of row config')
  unfolding config_command finish_edit edit_row
  config_command-one always no_cmd row config config' edit e =
      rw (config_command, edit_row, strcmp_refl row.name, e) refl

  whole_command :
      (always no_cmd : Bool) (row : Ifrow) (config config' : Smap) (edit : Ifrow → Option Smap)
      → IsWhole config
      → edit (record row { user_config = config }) ≡ some config'
      → config_command always (session_of row no_cmd) (unless_split edit) (table_of row config)
        ≡ some (cmd_success, table_of row config')
  whole_command always no_cmd row config config' edit w e =
      config_command-one always no_cmd row config config' (unless_split edit)
        (rw (not_split (record row { user_config = config }) w) e)

  module _ (row : Ifrow) (config : Smap) where
    pub run_no_shutdown :
        run_line row no_shutdown config
        ≡ some (smap_replace config (user_config_key UserConfigKey.admin) admin_up)
    unfolding run_line cli_intf_shutdown edit_admin
    run_no_shutdown =
        rw
          (
            run_line,
            cli_intf_shutdown,
            config_command-one true true row config (edit_admin true config)
                (λ r. some (edit_admin true r.user_config)) refl,
          )
          refl

    module _ (w : IsWhole config) where
      pub run_speed :
          (arg list : CString)
          → strcmp_is_zero speeds_default arg ≡ false
          → smap_get row.hw_intf_info (bytes "speeds") ≡ some list
          → occurs_token arg (strtok b',' list) ≡ true
          → run_line row (setting (Command.speed arg)) config
            ≡ some (smap_replace config (user_config_key UserConfigKey.speeds) arg)
      unfolding run_line cli_intf_speed
      run_speed arg list differ offered occurs =
          let config' = smap_replace config (user_config_key UserConfigKey.speeds) arg in
          rw
            (
              run_line,
              cli_intf_speed,
              whole_command true false row config config' (edit_speed false arg) w
                  (rw (edit_speed, differ, offered, occurs) refl),
            )
            refl

      pub run_mtu :
          (arg : CString)
          → strcmp_is_zero mtu_default arg ≡ false
          → accepts_mtu arg ≡ true
          → run_line row (setting (Command.mtu arg)) config
            ≡ some (smap_replace config (user_config_key UserConfigKey.mtu) arg)
      unfolding run_line cli_intf_mtu
      run_mtu arg differ accepted =
          let config' = smap_replace config (user_config_key UserConfigKey.mtu) arg in
          rw
            (
              run_line,
              cli_intf_mtu,
              accepted,
              whole_command false false row config config'
                  (λ r. some (edit_mtu false arg r.user_config)) w (rw (edit_mtu, differ) refl),
            )
            refl

      pub run_duplex :
          (arg : CString)
          → strcmp_is_zero arg (bytes "full") ≡ false
          → run_line row (setting (Command.duplex arg)) config
            ≡ some (
                smap_replace config
                  (user_config_key UserConfigKey.duplex)
                  (user_duplex_name UserDuplex.half))
      unfolding run_line cli_intf_duplex
      run_duplex arg differ =
          let config' =
            smap_replace config (user_config_key UserConfigKey.duplex)
              (user_duplex_name UserDuplex.half) in
          rw
            (
              run_line,
              cli_intf_duplex,
              whole_command true false row config config'
                  (λ r. some (edit_duplex false arg r.user_config)) w
                  (rw (edit_duplex, differ) refl),
            )
            refl

      pub run_autoneg :
          (arg : CString)
          → strcmp_is_zero (user_autoneg_name UserAutoneg.default) arg ≡ false
          → run_line row (setting (Command.autonegotiation arg)) config
            ≡ some (smap_replace config (user_config_key UserConfigKey.autoneg) arg)
      unfolding run_line cli_intf_autoneg
      run_autoneg arg differ =
          let config' = smap_replace config (user_config_key UserConfigKey.autoneg) arg in
          rw
            (
              run_line,
              cli_intf_autoneg,
              whole_command true false row config config'
                  (λ r. some (edit_autoneg false arg r.user_config)) w
                  (rw (edit_autoneg, differ) refl),
            )
            refl

      pub run_flowcontrol :
          (direction state : CString)
          → run_line row (setting (Command.flowcontrol direction state)) config
            ≡ some (edit_flowcontrol direction state config)
      unfolding run_line cli_intf_flowcontrol
      run_flowcontrol direction state =
          rw
            (
              run_line,
              cli_intf_flowcontrol,
              whole_command true false row config (edit_flowcontrol direction state config)
                  (λ r. some (edit_flowcontrol direction state r.user_config)) w refl,
            )
            refl

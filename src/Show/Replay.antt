-- ===== src/Show/Replay.antt =====
-- Running the lines of show running-config as commands of src/cli/intf_vty.c on an interface: the lines
-- about user_config run their handlers on a table of one row, and the others leave that column as it
-- is. Not run is the line split, whose command asks a question at the terminal.
pub mod Steps
pub mod Profile
pub mod Columns
pub mod Values
pub mod Idle
pub mod RoundTrip
use ops_intfd.Prelude.{
  ℕ, Bool, true, false, Option, none, some, List, [], ◌∷◌, ◌>>=◌, ◌≡◌, if◌then◌else◌,
}
use ops_intfd.CString.{CString}
use ops_intfd.Smap.{Smap, smap_get}
use ops_intfd.Schema.{Idl, UserConfigKey}
use ops_intfd.Database.{Ifrow}
use ops_intfd.Daemon.{Rows, PortRow}
use ops_intfd.Cli.{Session, CmdResult, cmd_success, cmd_ovsdb_failure, cmd_err_nothing_todo}
use ops_intfd.Cli.Commands.{cli_intf_shutdown}
use ops_intfd.Cli.OnlyKey.{run_command}
use ops_intfd.Show.{Line, no_shutdown, split, setting, Out}

-- A session in the context of the interface whose transactions succeed.
abbrev pub session_of : Ifrow → Bool → Session
session_of row no_cmd = record { index = row.name; no_cmd = no_cmd; starts = true; commits = true }

abbrev pub table_of : Ifrow → Smap → Rows
table_of row config = (0, record row { user_config = config }) ∷ []

-- The column after a command that succeeded.
abbrev pub config_of : CmdResult → Rows → Option Smap
config_of cmd_success ((r, row) ∷ []) = some row.user_config
config_of _ rows = none

abbrev pub after_command : Option (CmdResult × Rows) → Option Smap
after_command none = none
after_command (some (result, rows)) = config_of result rows

abbrev pub after_shutdown : Option (CmdResult × Rows × List PortRow) → Option Smap
after_shutdown none = none
after_shutdown (some (result, rows, ports)) = config_of result rows

module _ ⦃idl : Idl⦄ where
  unfoldable pub run_line : Ifrow → Line → Smap → Option Smap
  unfolding cli_intf_shutdown
  run_line row no_shutdown config =
      after_shutdown (cli_intf_shutdown (session_of row true) (table_of row config) [])
  run_line row (setting c) config =
      after_command (run_command c (session_of row false) (table_of row config))
  run_line row split config = none
  run_line row _ config = some config

  unfoldable pub replay : Ifrow → List Line → Smap → Option Smap
  unfolding run_line
  replay row [] config = some config
  replay row (line ∷ lines) config = run_line row line config >>= replay row lines

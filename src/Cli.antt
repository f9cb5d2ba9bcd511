-- ===== src/Cli.antt =====
-- The commands of src/cli/intf_vty.c that configure an interface: what they share. A command opens a
-- transaction, edits the column user_config of the first row that has the name of the context, and
-- commits.
pub mod Commands
pub mod Readback
pub mod FlowControl
pub mod Effect
pub mod OnlyKey
pub mod Faults
pub mod Split
pub mod Select
pub mod Names
pub mod Orders
pub mod NameOrder
mod Tests
use ops_intfd.Prelude.{ℕ, Bool, true, false, ◌||◌, Option, none, some, List, [], ◌∷◌, if◌then◌else◌}
use ops_intfd.CString.{CString, strcmp_is_zero}
use ops_intfd.Smap.{Smap, smap_get}
use ops_intfd.Schema.{Idl, UserConfigKey, LaneSplit}
use ops_intfd.Database.{Ifrow}
use ops_intfd.Daemon.{Rows}

-- CMD_SUCCESS, CMD_WARNING, CMD_OVSDB_FAILURE, CMD_ERR_NO_MATCH, CMD_ERR_NOTHING_TODO
pub data CmdResult : Type 0 where
  cmd_success cmd_warning cmd_ovsdb_failure cmd_err_no_match cmd_err_nothing_todo : CmdResult

-- The terminal and the transaction: `starts` is whether cli_do_config_start gives a transaction,
-- `commits` whether cli_do_config_finish reports TXN_SUCCESS or TXN_UNCHANGED, and `no_cmd` is the
-- flag CMD_FLAG_NO_CMD of vty_flags.
pub record Session : Type 0 where
  pub index : CString
  pub no_cmd : Bool
  pub starts : Bool
  pub commits : Bool

-- The loop over the rows: no row has the name, the command was refused, or the rows as edited.
pub data Edited : Type 0 where
  missing refused : Edited
  edited : Rows → Edited

abbrev pub keep_row : ℕ × Ifrow → Edited → Edited
keep_row e missing = missing
keep_row e refused = refused
keep_row e (edited rows) = edited (e ∷ rows)

unfoldable pub edit_row : (Ifrow → Option Smap) → CString → Rows → Edited
edit_row edit name [] = missing
edit_row edit name ((r, row) ∷ rows) =
    let rest = edit_row edit name rows in
    if strcmp_is_zero row.name name
    then elim (edit row) [
      | none ↦ refused
      | some config ↦ edited ((r, record row { user_config = config }) ∷ rows)
    ]
    else keep_row (r, row) rest

-- The end of the command. If no row has the name, smap_destroy is called on a map that was never
-- initialised: a fault. `always` is whether it is called also after a commit that failed.
unfoldable pub finish_edit : Bool → Session → Rows → Edited → Option (CmdResult × Rows)
finish_edit always s rows missing =
    if always || s.commits then none else some (cmd_ovsdb_failure, rows)
finish_edit always s rows refused = some (cmd_success, rows)
finish_edit always s rows (edited rows') =
    some (if s.commits then (cmd_success, rows') else (cmd_ovsdb_failure, rows))

unfoldable pub config_command :
    Bool → Session → (Ifrow → Option Smap) → Rows → Option (CmdResult × Rows)
unfolding finish_edit edit_row
config_command always s edit [] = some (cmd_ovsdb_failure, [])
config_command always s edit (e ∷ rows) =
    if s.starts
    then finish_edit always s (e ∷ rows) (edit_row edit s.index (e ∷ rows))
    else some (cmd_ovsdb_failure, e ∷ rows)

module _ ⦃idl : Idl⦄ where
  open idl use {user_config_key, lane_split_name}

  unfoldable pub is_parent_interface_split : Ifrow → Bool
  is_parent_interface_split row =
      elim (smap_get row.user_config (user_config_key UserConfigKey.lane_split)) [
        | none ↦ false
        | some value ↦ strcmp_is_zero value (lane_split_name LaneSplit.split)
      ]

  -- An interface that has been split is not edited.
  abbrev pub unless_split : (Ifrow → Option Smap) → Ifrow → Option Smap
  unless_split edit row = if is_parent_interface_split row then none else edit row

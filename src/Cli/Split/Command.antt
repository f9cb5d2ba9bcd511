-- ===== src/Cli/Split/Command.antt =====
-- The command split of src/cli/intf_vty.c, with handle_port_config.
use ops_intfd.Prelude.{
  ℕ, Bool, true, false, ◌||◌, not, Option, none, some, List, [], ◌∷◌, ◌==◌, if◌then◌else◌, ◌>>=◌,
}
use ops_intfd.CString.{CString, strcmp_is_zero}
use ops_intfd.Smap.{Smap, smap_get, smap_replace, smap_remove}
use ops_intfd.Schema.{Idl, UserConfigKey, LaneSplit}
use ops_intfd.Database.{Ifrow}
use ops_intfd.Daemon.{Rows, get_row, put_row}
use ops_intfd.Cli.{CmdResult, cmd_success, cmd_ovsdb_failure, Session}
use ops_intfd.Cli.Split.{Db, Utils, remove_port_and_references}

abbrev pub store_config : ℕ → Ifrow → Smap → Db → Db
store_config r row config db = record db {
  rows = put_row db.rows r (record row { user_config = config });
}

-- The loop over the answers: `y` or `Y`, `n` or `N`, or another. It does not end with the input.
unfoldable pub read_answer : List ℕ → Option Bool
read_answer [] = none
read_answer (c ∷ rest) =
    if c == b'y' || c == b'Y'
    then some true
    else if c == b'n' || c == b'N'
    then some false
    else read_answer rest

-- The row that the loop finds.
unfoldable pub find_row : CString → Rows → Option (ℕ × Ifrow)
find_row name [] = none
find_row name ((r, row) ∷ rows) =
    if strcmp_is_zero row.name name then some (r, row) else find_row name rows

-- The end of the command: without a yes the transaction is aborted.
abbrev pub finish_split : Session → Db → Option Db → CmdResult × Db
finish_split s db none = (cmd_success, db)
finish_split s db (some db') = if s.commits then (cmd_success, db') else (cmd_ovsdb_failure, db)

abbrev pub is_empty : Rows → Bool
is_empty [] = true
is_empty (e ∷ rows) = false

module _ ⦃idl : Idl⦄ where
  open idl use {user_config_key, lane_split_name}

  unfoldable pub edit_split : Bool → Smap → Smap
  edit_split no_cmd config =
      if no_cmd
      then smap_remove config (user_config_key UserConfigKey.lane_split)
      else smap_replace config (user_config_key UserConfigKey.lane_split)
          (lane_split_name LaneSplit.split)

module _ ⦃idl : Idl⦄ (utils : Utils) where
  open idl use {user_config_key, admin_down}
  open utils use {split_4_key, split_4_true}

  -- The loop over the children of an interface that is no longer split.
  unfoldable pub release_children : List ℕ → Db → Option Db
  unfolding remove_port_and_references
  release_children [] db = some db
  release_children (r ∷ children) db = do
    row ← get_row db.rows r
    db' ← remove_port_and_references utils row.name db
    row' ← get_row db'.rows r
    release_children children (
        store_config r row'
          (smap_replace row'.user_config (user_config_key UserConfigKey.admin) admin_down) db')

  unfoldable pub handle_port_config : Ifrow → Bool → Db → Option Db
  unfolding release_children remove_port_and_references
  handle_port_config row is_split db =
      if is_split
      then remove_port_and_references utils row.name db
      else release_children row.split_children db

  abbrev pub splittable_value : Option CString → Bool
  splittable_value none = false
  splittable_value (some value) = strcmp_is_zero value split_4_true

  unfoldable pub is_splittable : Ifrow → Bool
  is_splittable row = splittable_value (smap_get row.hw_intf_info split_4_key)

  -- What the loop does for the row: none of it is kept unless the answer is yes.
  unfoldable pub split_row : Session → List ℕ → ℕ → Ifrow → Db → Option (Option Db)
  unfolding edit_split handle_port_config read_answer is_splittable
  split_row s answers r row db =
      let db' = store_config r row (edit_split s.no_cmd row.user_config) db in
      if is_splittable row
      then elim (read_answer answers) [
        | none ↦ none
        | some true ↦ elim (handle_port_config row (not s.no_cmd) db') [
          | none ↦ none
          | some db'' ↦ some (some db'')
        ]
        | some false ↦ some none
      ]
      else some none

  unfoldable pub cli_intf_split : List ℕ → Session → Db → Option (CmdResult × Db)
  unfolding find_row split_row
  cli_intf_split answers s db =
      if not s.starts || is_empty db.rows
      then some (cmd_ovsdb_failure, db)
      else elim (find_row s.index db.rows) [
        | none ↦ some (cmd_success, db)
        | some (r, row) ↦ elim (split_row s answers r row db) [
          | none ↦ none
          | some outcome ↦ some (finish_split s db outcome)
        ]
      ]

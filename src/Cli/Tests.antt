-- ===== src/Cli/Tests.antt =====
-- The commands of src/cli/intf_vty.c on a table of two interfaces, and names like those of the tests.
use ops_intfd.Prelude.{pos, ◌≡◌, refl, true, false, [], ◌∷◌, is_some, OnSome}
use ops_intfd.CString.{bytes, strcmp_is_zero, str_eq, is_a_number, skip_space}
use ops_intfd.CString.Strtol.{strtol, strtol_ends}
use ops_intfd.StringMap.Assoc.{assoc_get}
use ops_intfd.Smap.{smap_get}
use ops_intfd.Schema.{UserAdmin, UserAutoneg, UserPause, UserDuplex}
use ops_intfd.Schema.Sample.{sample}
use ops_intfd.Schema.Distinct.{user_autoneg_name-injective, user_pause_name-injective}
use ops_intfd.Database.Sample.{blank_row, entry}
use ops_intfd.Parse.Speeds.{parse_user_mtu}
use ops_intfd.Parse.UserCfg.{parse_admin, parse_autoneg, parse_pause, parse_duplex}
use ops_intfd.Daemon.{Rows}
use ops_intfd.Daemon.Sync.{has_name}
use ops_intfd.Cli.{Session}
use ops_intfd.Cli.Commands.{
  accepts_mtu, edit_admin, edit_mtu, edit_duplex, edit_autoneg, edit_flowcontrol,
}
use ops_intfd.Cli.Readback.{edit-parse, edit_mtu-parse}
use ops_intfd.Cli.FlowControl.{edit_flowcontrol-parse}
use ops_intfd.Cli.Effect.{IsAnswer}
use ops_intfd.Cli.OnlyKey.{Command, HasNewValue, run_command}
use ops_intfd.Cli.OnlyKey.Edits.{run_command-IsAnswer}
use ops_intfd.Cli.Faults.{run_command-is_some}
use ops_intfd.Cli.Names.{compare_nodes, less, equal}
use ops_intfd.Cli.Orders.{flip}
use ops_intfd.Cli.NameOrder.{compare_nodes-sorts}

abbrev two_rows : Rows
two_rows = (5, blank_row) ∷ (6, record blank_row { name = bytes "2" }) ∷ []

abbrev session : Session
session = record { index = bytes "2"; no_cmd = false; starts = true; commits = true }

edit-parse_example :
    (parse_admin (edit_admin true []) ≡ UserAdmin.up)
    × (parse_autoneg (edit_autoneg true (bytes "on") []) ≡ UserAutoneg.default)
    × (parse_duplex (edit_duplex true (bytes "half") []) ≡ UserDuplex.full)
unfolding str_eq
edit-parse_example =
    edit-parse true [] UserAutoneg.on (bytes "half") refl user_autoneg_name-injective

edit_mtu-parse_example :
    parse_user_mtu (pos 9216) (smap_get (edit_mtu false (bytes "9000") []) (bytes "mtu")) ≡ pos 9000
unfolding accepts_mtu strtol_ends skip_space is_a_number strtol strcmp_is_zero
edit_mtu-parse_example = edit_mtu-parse (pos 9216) (bytes "9000") [] refl refl refl refl

edit_flowcontrol-parse_example :
    (parse_pause (entry (bytes "pause") (bytes "rx")) ≡ UserPause.rx)
    × (parse_pause
          (edit_flowcontrol (bytes "send") (bytes "on") (entry (bytes "pause") (bytes "rx")))
        ≡ UserPause.rxtx)
unfolding assoc_get strcmp_is_zero
edit_flowcontrol-parse_example =
    edit_flowcontrol-parse user_pause_name-injective true true (entry (bytes "pause") (bytes "rx"))
      UserPause.rx refl

run_command-IsAnswer_example :
    OnSome
      (IsAnswer (HasNewValue (Command.mtu (bytes "9000")) session.no_cmd) session two_rows)
      (run_command (Command.mtu (bytes "9000")) session two_rows)
run_command-IsAnswer_example =
    run_command-IsAnswer user_pause_name-injective (Command.mtu (bytes "9000")) session two_rows

run_command-is_some_example :
    is_some (run_command (Command.duplex (bytes "half")) session two_rows) ≡ true
unfolding has_name strcmp_is_zero
run_command-is_some_example = run_command-is_some (Command.duplex (bytes "half")) session two_rows

compare_nodes-sorts_example :
    (compare_nodes (bytes "10") (bytes "9-2") ≡ flip (compare_nodes (bytes "9-2") (bytes "10")))
    × (compare_nodes (bytes "9-2") (bytes "10") ≡ less
        → compare_nodes (bytes "10") (bytes "vlan20") ≡ less
        → compare_nodes (bytes "9-2") (bytes "vlan20") ≡ less)
    × (compare_nodes (bytes "9-2") (bytes "10") ≡ equal
        → compare_nodes (bytes "9-2") (bytes "vlan20")
          ≡ compare_nodes (bytes "10") (bytes "vlan20"))
unfolding strcmp_is_zero
compare_nodes-sorts_example =
    compare_nodes-sorts (bytes "9-2") (bytes "10") (bytes "vlan20") refl refl refl

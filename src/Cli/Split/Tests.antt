-- ===== src/Cli/Split/Tests.antt =====
-- The command split of src/cli/intf_vty.c on the interface 10, with an interface 1 beside it in a lag.
use ops_intfd.Prelude.{◌≡◌, refl, true, false, some, [], ◌∷◌}
use ops_intfd.CString.{bytes, strcmp_is_zero, strncmp_is_zero}
use ops_intfd.Schema.Sample.{sample}
use ops_intfd.Database.Sample.{blank_row, entry}
use ops_intfd.Daemon.{get_row}
use ops_intfd.Cli.{Session}
use ops_intfd.Cli.Split.{PortRow, Db, Utils, remove_port_and_references}
use ops_intfd.Cli.Split.Lag.{remove_port_and_references-passed_over}

abbrev utils : Utils
utils = record {
  check_port_in_vrf = λ db name. false;
  port_match_in_vrf = λ db port. some 0;
  check_port_in_bridge = λ db name. true;
  aggregation_key = bytes "lacp-aggregation-key";
  split_4_key = bytes "split_4";
  split_4_true = bytes "true";
}

abbrev lag_port : PortRow
lag_port = record { id = 3; name = bytes "lag7"; interfaces = 5 ∷ 6 ∷ [] }

abbrev lag_db : Db
lag_db = record {
  rows =
      (5, blank_row)
      ∷ (
        6,
        record blank_row {
          name = bytes "10";
          hw_intf_info = entry (bytes "split_4") (bytes "true");
        },
      )
      ∷ [];
  other_config = λ r. [];
  ports = lag_port ∷ [];
  vrfs = [] ∷ [];
  bridges = (3 ∷ []) ∷ [];
}

abbrev session : Session
session = record { index = bytes "10"; no_cmd = false; starts = true; commits = true }

remove_port_and_references-passed_over_example :
    (db' : Db) × (remove_port_and_references utils (bytes "10") lag_db ≡ some db')
    × (db'.ports ≡ record lag_port { interfaces = 6 ∷ [] } ∷ [])
    × (db'.rows ≡ lag_db.rows)
    × (db'.vrfs ≡ lag_db.vrfs)
    × (db'.bridges ≡ lag_db.bridges)
unfolding strcmp_is_zero strncmp_is_zero get_row
remove_port_and_references-passed_over_example =
    remove_port_and_references-passed_over utils lag_db (bytes "10") lag_port 5 6 blank_row refl
      refl refl refl refl refl

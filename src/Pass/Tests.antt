-- ===== src/Pass/Tests.antt =====
-- A pass over two rows: one that LACP blocks, after one that is not operationally up.
use ops_intfd.Prelude.{◌≡◌, refl, Bool, false, some, List, [], ◌∷◌, arith}
use ops_intfd.CString.{bytes, strcmp_is_zero}
use ops_intfd.CString.Equality.{strcmp_ne}
use ops_intfd.Schema.Sample.{sample}
use ops_intfd.Database.{Ifrow}
use ops_intfd.Database.Sample.{blank_row, entry}
use ops_intfd.Arbiter.{LayerClass, arbiter_init}
use ops_intfd.Arbiter.Registered.{Reached, start}
use ops_intfd.Arbiter.Column.{KeysDiffer}
use ops_intfd.Pass.{arbiter_run}
use ops_intfd.Pass.Columns.{AllArbitrated, arbiter_run-AllArbitrated, arbiter_run_twice}

abbrev two_rows : List Ifrow
two_rows =
    blank_row
    ∷ record blank_row {
      hw_intf_config = entry (bytes "enable") (bytes "true");
      bond_status = entry (bytes "state") (bytes "blocked");
    }
    ∷ []

keys_differ : KeysDiffer
unfolding strcmp_is_zero
keys_differ = record {
  state_layer = strcmp_ne _ _ refl;
  state_owner = strcmp_ne _ _ refl;
  layer_owner = strcmp_ne _ _ refl;
}

arbiter_run-AllArbitrated_example :
    (result : Bool × List LayerClass × List Ifrow) × (arbiter_run arbiter_init two_rows
      ≡ some result)
    × AllArbitrated two_rows result.2
    × Reached result.1
arbiter_run-AllArbitrated_example =
    arbiter_run-AllArbitrated (omega arith) keys_differ arbiter_init two_rows start

arbiter_run_twice_example :
    (result : Bool × List LayerClass × List Ifrow) × (left : List LayerClass) × (arbiter_run
        arbiter_init two_rows
      ≡ some result)
    × (arbiter_run result.1 result.2 ≡ some (false, left, result.2))
arbiter_run_twice_example = arbiter_run_twice (omega arith) keys_differ arbiter_init two_rows start

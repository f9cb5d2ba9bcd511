-- ===== src/Arbiter/Tests.antt =====
-- Runs of the arbiter of src/intfd_arbiter.c on small interfaces.
use ops_intfd.Prelude.{◌≡◌, refl, true, false, none, some, List, [], ◌∷◌, arith, inl, inr}
use ops_intfd.CString.{bytes, str_eq, is_str, strncmp_is_zero, strcmp_is_zero}
use ops_intfd.CString.Equality.{strcmp_ne}
use ops_intfd.StringMap.Assoc.{assoc_get}
use ops_intfd.Smap.{Smap, smap_get}
use ops_intfd.Schema.Sample.{sample}
use ops_intfd.Database.{Ifrow}
use ops_intfd.Database.Sample.{blank_row, entry}
use ops_intfd.Arbiter.{
  LayerClass, is_oper_up, lacp_state, interface_run, layer_run, arbiter_init, get_state_value,
}
use ops_intfd.Arbiter.Layer.{IsSettled, IsRanked, should_own, layer_run-owner}
use ops_intfd.Arbiter.Chain.{any_layer_blocks, interface_run-forwarding}
use ops_intfd.Arbiter.Registered.{
  Reached, published, finish, run_one, lacp, aggregation, start, next, interface_run_total,
  interface_run-Reached,
}
use ops_intfd.Arbiter.Column.{KeysDiffer, expected_column, interface_run-column}

abbrev up_row : Ifrow
up_row = record blank_row {
  hw_intf_config = entry (bytes "enable") (bytes "true");
  bond_status = entry (bytes "state") (bytes "up");
}

abbrev lacp_row : Ifrow
lacp_row = record blank_row {
  hw_intf_config = entry (bytes "enable") (bytes "true");
  bond_status = entry (bytes "state") (bytes "blocked");
}

is_oper_up_test : (is_oper_up up_row ≡ true) × (is_oper_up blank_row ≡ false)
unfolding str_eq strncmp_is_zero assoc_get strcmp_is_zero is_str
is_oper_up_test = (refl, refl)

lacp_state_test : (lacp_state up_row ≡ false) × (lacp_state lacp_row ≡ true)
unfolding lacp_state str_eq strncmp_is_zero assoc_get strcmp_is_zero is_str
lacp_state_test = (refl, refl)

settled : IsSettled (aggregation 1 false)
settled = record { owned = inr refl; open_unowned = λ _. refl }

ranked : IsRanked (lacp ∷ [])
ranked = (omega arith, tt, tt)

differ : KeysDiffer
unfolding strcmp_is_zero
differ = record {
  state_layer = strcmp_ne _ _ refl;
  state_owner = strcmp_ne _ _ refl;
  layer_owner = strcmp_ne _ _ refl;
}

layer_run-owner_example :
    (layer_run none (aggregation 1 false) lacp_row).1.owner ≡ should_own none (lacp ∷ []) lacp_row
layer_run-owner_example = layer_run-owner none (aggregation 1 false) lacp_row ranked settled

interface_run_total_example :
    (result : List LayerClass × Smap) × (interface_run arbiter_init lacp_row [] ≡ some result)
interface_run_total_example = interface_run_total arbiter_init lacp_row [] start

interface_run-column_example :
    (result : List LayerClass × Smap) × (interface_run arbiter_init lacp_row [] ≡ some result)
    × (smap_get result.1 (bytes "forwarding") ≡ expected_column lacp_row [] (bytes "forwarding"))
interface_run-column_example =
    interface_run-column arbiter_init lacp_row [] (bytes "forwarding") (omega arith) differ start

-- The layers that an interface that LACP blocks leaves.
reached_blocked : (result : List LayerClass × Smap) × Reached result.0
reached_blocked =
    let (result, e) = interface_run_total arbiter_init lacp_row [] start in
    (result, next lacp_row [] result.1 start e)

interface_run-Reached_example :
    interface_run reached_blocked.0.0 up_row [] ≡ interface_run arbiter_init up_row []
interface_run-Reached_example =
    interface_run-Reached (omega arith) reached_blocked.0.0 up_row [] reached_blocked.1

abbrev left_up : LayerClass
left_up = (layer_run none (aggregation 1 false) up_row).1

interface_run-forwarding_example :
    smap_get
      (finish
        (aggregation left_up.owner left_up.blocked)
        (published left_up.owner left_up.blocked [])).1
      (bytes "forwarding")
    ≡ some (get_state_value (any_layer_blocks up_row (aggregation 1 false ∷ [])))
interface_run-forwarding_example =
    interface_run-forwarding (aggregation 1 false ∷ []) up_row [] (refl, tt)
      (run_one 1 false up_row [] (inl refl))

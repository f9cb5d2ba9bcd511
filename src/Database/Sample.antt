-- ===== src/Database/Sample.antt =====
-- Rows for the tests and witnesses.
use ops_intfd.Prelude.{true, false, none, [], ◌∷◌}
use ops_intfd.CString.{CString, bytes}
use ops_intfd.StringMap.{Smap}
use ops_intfd.Database.{Ifrow}

abbrev pub entry : CString → CString → Smap
entry key value = (key, value) ∷ []

abbrev pub blank_row : Ifrow
blank_row = record {
  name = bytes "1";
  type = bytes "system";
  user_config = [];
  pm_info = [];
  hw_intf_info = [];
  hw_intf_config = [];
  bond_status = [];
  forwarding_state = [];
  error = none;
  split_parent = none;
  split_children = [];
  is_inserted = false;
  is_modified = true;
}

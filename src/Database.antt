-- ===== src/Database.antt =====
-- A row of the Interface table as the generated database client presents it. A column that the
-- daemon sets is seen by its later reads of the same row.
pub mod Sample
use ops_intfd.Prelude.{ℕ, Bool, Option, List}
use ops_intfd.CString.{CString}
use ops_intfd.StringMap.{Smap}

-- struct ovsrec_interface: rows refer to each other by their number in the table, and an empty
-- `split_children` is the null pointer of the client.
pub record Ifrow : Type 0 where
  pub name : CString
  pub type : CString
  pub user_config : Smap
  pub pm_info : Smap
  pub hw_intf_info : Smap
  pub hw_intf_config : Smap
  pub bond_status : Smap
  pub forwarding_state : Smap
  pub error : Option CString
  pub split_parent : Option ℕ
  pub split_children : List ℕ
  pub is_inserted : Bool
  pub is_modified : Bool

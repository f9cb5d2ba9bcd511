-- ===== src/Cli/Select/Tests.antt =====
-- The commands interface and no interface of src/cli/intf_vty.c on a table with the interface 10.
use ops_intfd.Prelude.{◌≢◌, ap, map, true, false, ◌≡◌, refl, none, some, List, [], ◌∷◌, arith}
use ops_intfd.CString.{bytes, strcmp_is_zero, strncmp_is_zero, skip_bytes, print_int, int_of_bits}
use ops_intfd.StringMap.Assoc.{assoc_get, assoc_remove}
use ops_intfd.Schema.{UserConfigKey, LaneSplit}
use ops_intfd.Schema.Sample.{sample}
use ops_intfd.Database.{Ifrow}
use ops_intfd.Database.Sample.{blank_row, entry}
use ops_intfd.Daemon.{put_row}
use ops_intfd.Cli.{
  Session, cmd_success, cmd_warning, cmd_err_nothing_todo, is_parent_interface_split,
}
use ops_intfd.Cli.Names.{has_char}
use ops_intfd.Cli.Select.{
  config_node, interface_node, parent_not_split, could_not_remove, Vty, notify, Shell,
  vtysh_interface, no_vtysh_interface,
}
use ops_intfd.Cli.Select.Child.{child}
use ops_intfd.Cli.Split.{Db, Utils}
use ops_intfd.Cli.Split.Command.{cli_intf_split}
use ops_intfd.Cli.Select.AfterSplit.{cli_intf_split-vtysh_interface}
use ops_intfd.Cli.Select.Parent.{vtysh_interface-whole_parent, vtysh_interface-overflow}

-- The database is the Interface table; a VLAN interface is named by vlan.
abbrev shell : Shell (List Ifrow)
shell = record {
  rows = λ rows. rows;
  vlans = λ rows. [];
  create_sub_interface = λ name vty rows. (cmd_success, vty, rows);
  delete_sub_intf = λ name rows. rows;
  create_vlan_interface = λ name rows. (cmd_success, rows);
  delete_vlan_interface = λ name rows. (cmd_success, rows);
  default_port_add = λ name rows. rows;
  verify_ifname = λ name. strncmp_is_zero name (bytes "vlan") 4;
  verify_vlan_ifname = λ name. strncmp_is_zero name (bytes "vlan") 4;
  get_vlanif = λ name. name;
  lag_port_name_prefix = bytes "lag";
  lag_port_name_prefix_length = 3;
  max_ifname_length = 50;
}

abbrev vty : Vty
vty = record { node = config_node; index = some (bytes "1"); notices = [] }

abbrev whole : Ifrow
whole = record blank_row { name = bytes "10" }

abbrev split_row : Ifrow
split_row = record whole {
  user_config =
      entry (sample.user_config_key UserConfigKey.lane_split)
        (sample.lane_split_name LaneSplit.split);
}

remove_lag :
    no_vtysh_interface shell (bytes "lag7") vty []
    ≡ some (cmd_warning, notify (could_not_remove (bytes "lag7") (bytes "lag") (bytes "7")) vty, [])
unfolding no_vtysh_interface has_char strncmp_is_zero skip_bytes
remove_lag = refl

vtysh_interface-whole_parent_example :
    vtysh_interface shell 0 (child 10 (bytes "2")) vty (whole ∷ [])
    ≡ some (cmd_err_nothing_todo, notify (parent_not_split (child 10 (bytes "2"))) vty, whole ∷ [])
unfolding is_parent_interface_split print_int int_of_bits assoc_get
vtysh_interface-whole_parent_example =
    vtysh_interface-whole_parent shell 0 10 (bytes "2") vty (whole ∷ []) [] [] whole (omega arith)
      refl refl refl

vtysh_interface-overflow_example :
    vtysh_interface shell 0 (child 10000 (bytes "1")) vty (whole ∷ []) ≡ none
vtysh_interface-overflow_example =
    vtysh_interface-overflow shell 0 10000 (bytes "1") vty (whole ∷ []) (omega arith) (omega arith)

abbrev utils : Utils
utils = record {
  check_port_in_vrf = λ db name. false;
  port_match_in_vrf = λ db port. none;
  check_port_in_bridge = λ db name. false;
  aggregation_key = bytes "lacp-aggregation-key";
  split_4_key = bytes "split_4";
  split_4_true = bytes "true";
}

-- The interface 10 can be split.
abbrev before : Db
before = record {
  rows = (6, record whole { hw_intf_info = entry (bytes "split_4") (bytes "true") }) ∷ [];
  other_config = λ r. [];
  ports = [];
  vrfs = [];
  bridges = [];
}

abbrev after : Db
after = record before {
  rows = (6, record split_row { hw_intf_info = entry (bytes "split_4") (bytes "true") }) ∷ [];
}

abbrev db_shell : Shell Db
db_shell = record {
  rows = λ db. map (λ e. e.1) db.rows;
  vlans = λ db. [];
  create_sub_interface = λ name vty db. (cmd_success, vty, db);
  delete_sub_intf = λ name db. db;
  create_vlan_interface = λ name db. (cmd_success, db);
  delete_vlan_interface = λ name db. (cmd_success, db);
  default_port_add = λ name db. db;
  verify_ifname = λ name. strncmp_is_zero name (bytes "vlan") 4;
  verify_vlan_ifname = λ name. strncmp_is_zero name (bytes "vlan") 4;
  get_vlanif = λ name. name;
  lag_port_name_prefix = bytes "lag";
  lag_port_name_prefix_length = 3;
  max_ifname_length = 50;
}

abbrev session : Session
session = record { index = bytes "10"; no_cmd = false; starts = true; commits = true }

splits : cli_intf_split utils (b'y' ∷ []) session before ≡ some (cmd_success, after)
unfolding cli_intf_split strcmp_is_zero put_row assoc_get assoc_remove
splits = refl

changes : after ≢ before
changes same = cc (ap (λ (db : Db). db.rows) same)

cli_intf_split-vtysh_interface_example :
    (vty' : Vty) × (db : Db) × (vtysh_interface db_shell 0 (child 10 (bytes "2")) vty after
      ≡ some (cmd_success, vty', db))
    × (vty'.node ≡ interface_node)
    × (vty'.index ≡ some (child 10 (bytes "2")))
unfolding has_char strncmp_is_zero print_int int_of_bits
cli_intf_split-vtysh_interface_example =
    cli_intf_split-vtysh_interface utils db_shell session (b'y' ∷ []) before after cmd_success 6 10
      0 (bytes "2") vty refl refl (omega arith) (λ e. refl, tt) splits changes refl refl refl refl
      (omega arith)

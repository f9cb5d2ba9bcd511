-- ===== src/Cli/Select.antt =====
-- The commands interface and no interface of src/cli/intf_vty.c, vtysh_interface and
-- no_vtysh_interface: they choose the interface that the other commands configure.
pub mod Child
pub mod Parent
pub mod AfterSplit
mod Tests
use ops_intfd.Prelude.{
  ℕ, ◌%◌, ◌^◌, ℤ, ◌==ℤ◌, Bool, true, false, ◌&&◌, ◌||◌, not, Option, none, some, List, [], ◌∷◌,
  ◌++◌, length, ltb, if◌then◌else◌, ◌>>=◌,
}
use ops_intfd.CString.{
  CString, bytes, strcmp_is_zero, strncmp_is_zero, atoi, decimal_fuel, skip_bytes,
}
use ops_intfd.Schema.{Idl}
use ops_intfd.Database.{Ifrow}
use ops_intfd.Cli.{
  CmdResult, cmd_success, cmd_warning, cmd_ovsdb_failure, cmd_err_no_match, cmd_err_nothing_todo,
  is_parent_interface_split,
}
use ops_intfd.Cli.Names.{has_char, scan_number, ulong_bits}

-- CONFIG_NODE, INTERFACE_NODE, VLAN_INTERFACE_NODE, and the other nodes of the shell.
pub data Node : Type 0 where
  config_node interface_node vlan_interface_node : Node
  other_node : ℕ → Node

-- What the commands print, with the arguments.
pub data Notice : Type 0 where
  not_allowed unknown_interface parent_not_split : CString → Notice
  vlan_missing : ℤ → Notice
  unknown_command split_interface : Notice
  could_not_remove : CString → CString → CString → Notice

-- struct vty: a null index is `none`.
pub record Vty : Type 0 where
  pub node : Node
  pub index : Option CString
  pub notices : List Notice

abbrev pub notify : Notice → Vty → Vty
notify notice vty = record vty { notices = vty.notices ++ notice ∷ [] }

abbrev pub select : CString → Vty → Vty
select name vty = record vty { index = some name }

-- What the commands use of other repositories: the functions of the shell on sub-interfaces, VLAN
-- interfaces and ports, and names of generated headers. `World` is the database; `rows` are its
-- Interface table and `vlans` the ids of its VLAN table. Neither of the two tests changes the name.
pub record Shell (World : Type 0) : Type 0 where
  pub rows : World → List Ifrow
  pub vlans : World → List ℤ
  pub create_sub_interface : CString → Vty → World → CmdResult × Vty × World
  pub delete_sub_intf : CString → World → World
  pub create_vlan_interface : CString → World → CmdResult × World
  pub delete_vlan_interface : CString → World → CmdResult × World
  pub default_port_add : CString → World → World
  pub verify_ifname : CString → Bool
  -- VERIFY_VLAN_IFNAME(name) == 0
  pub verify_vlan_ifname : CString → Bool
  pub get_vlanif : CString → CString
  pub lag_port_name_prefix : CString
  pub lag_port_name_prefix_length : ℕ
  pub max_ifname_length : ℕ

-- The first number of sscanf(name, "%u-%u", ...), an unsigned int. Without one the variable keeps
-- what it held, `unread`.
unfoldable pub read_parent_number : ℕ → CString → ℕ
read_parent_number unread name = elim (scan_number name) [
  | none ↦ unread
  | some (sign, n, rest) ↦ ulong_bits sign n % 2 ^ 32
]

-- char if_name_str[5]
abbrev pub if_name_str_size : ℕ
if_name_str_size = 5

-- sprintf(if_name_str, "%u", n): a text that does not fit into the array with the byte that ends it is
-- written past its end.
unfoldable pub print_parent_name : ℕ → Option CString
print_parent_name n =
    let printed = decimal_fuel 10 n in
    if ltb (length printed) if_name_str_size then some printed else none

-- strstr(s, t) is not null.
unfoldable pub has_string : CString → CString → Bool
has_string t [] = strncmp_is_zero [] t (length t)
has_string t (c ∷ s) = strncmp_is_zero (c ∷ s) t (length t) || has_string t s

-- The loop over the VLAN table.
unfoldable pub has_vlan : ℤ → List ℤ → Bool
has_vlan id [] = false
has_vlan id (vlan ∷ vlans) = vlan ==ℤ id || has_vlan id vlans

abbrev pub is_lanes_split : Option CString → Bool
is_lanes_split none = false
is_lanes_split (some error) = strcmp_is_zero error (bytes "lanes_split")

-- The loop that clears `flag`.
unfoldable pub has_split_error : CString → List Ifrow → Bool
has_split_error name [] = false
has_split_error name (row ∷ rows) =
    strcmp_is_zero row.name name && is_lanes_split row.error || has_split_error name rows

abbrev pub is_ovsdb_failure : CmdResult → Bool
is_ovsdb_failure cmd_ovsdb_failure = true
is_ovsdb_failure result = false

module _ ⦃idl : Idl⦄ where
  -- The loop over the Interface table for the parent.
  unfoldable pub has_unsplit : CString → List Ifrow → Bool
  has_unsplit name [] = false
  has_unsplit name (row ∷ rows) =
      strcmp_is_zero row.name name && not (is_parent_interface_split row) || has_unsplit name rows

  -- The check of the name of a split child.
  unfoldable pub is_child_of_unsplit : ℕ → CString → List Ifrow → Option Bool
  is_child_of_unsplit unread name rows =
      if has_char b'-' name
      then (do
        parent ← print_parent_name (read_parent_number unread name)
        some (has_unsplit parent rows))
      else some false

module _ {World : Type 0} (shell : Shell World) where
  open shell use {
    rows, vlans, create_sub_interface, delete_sub_intf, create_vlan_interface,
    delete_vlan_interface, default_port_add, verify_ifname, verify_vlan_ifname, get_vlanif,
    lag_port_name_prefix, lag_port_name_prefix_length, max_ifname_length,
  }

  -- The branch of a VLAN interface.
  unfoldable pub select_vlan : CString → Vty → World → Option (CmdResult × Vty × World)
  unfolding has_vlan
  select_vlan name vty world = do
    digits ← skip_bytes 4 name
    let vlan_id = atoi digits
    let entered = record vty { node = vlan_interface_node }
    let (result, world') = create_vlan_interface (get_vlanif name) world
    some (
        if has_vlan vlan_id (vlans world)
        then (if is_ovsdb_failure result
            then (cmd_ovsdb_failure, entered, world')
            else (cmd_success, select (get_vlanif name) entered, world'))
        else (
          cmd_err_nothing_todo,
          record (notify (vlan_missing vlan_id) vty) { node = config_node },
          world,
        ))

  -- The branch of any other interface.
  unfoldable pub select_port : CString → Vty → World → CmdResult × Vty × World
  unfolding has_split_error
  select_port name vty world =
      if has_split_error name (rows world)
      then (cmd_success, select name (notify split_interface vty), world)
      else (cmd_success, select name vty, default_port_add name world)

  unfoldable pub select_interface : CString → Vty → World → Option (CmdResult × Vty × World)
  unfolding select_vlan select_port
  select_interface name vty world =
      if verify_ifname name
      then select_vlan name vty world
      else if strncmp_is_zero name lag_port_name_prefix lag_port_name_prefix_length
      then some (cmd_success, notify unknown_command vty, world)
      else if ltb (length name) max_ifname_length
      then some (select_port name vty world)
      else some (cmd_err_no_match, vty, world)

  unfoldable pub no_vtysh_interface : CString → Vty → World → Option (CmdResult × Vty × World)
  unfolding has_string
  no_vtysh_interface name vty world =
      let left = record vty { node = config_node } in
      if has_char b'.' name
      then some (cmd_success, left, delete_sub_intf name world)
      else if has_string lag_port_name_prefix name
      then (do
        number ← skip_bytes lag_port_name_prefix_length name
        some (cmd_warning, notify (could_not_remove name lag_port_name_prefix number) left, world))
      else if verify_vlan_ifname name
      then (let (result, world') = delete_vlan_interface (get_vlanif name) world in
          some (
            if is_ovsdb_failure result
            then (cmd_ovsdb_failure, left, world')
            else (cmd_success, select (get_vlanif name) left, world')))
      else if ltb (length name) max_ifname_length
      then some (cmd_success, select name left, world)
      else some (cmd_err_no_match, left, world)

module _ ⦃idl : Idl⦄ {World : Type 0} (shell : Shell World) where
  open shell use {rows, create_sub_interface}

  unfoldable pub vtysh_interface : ℕ → CString → Vty → World → Option (CmdResult × Vty × World)
  unfolding is_child_of_unsplit select_interface
  vtysh_interface unread name vty world =
      if strcmp_is_zero name (bytes "bridge_normal")
      then some (cmd_err_nothing_todo, notify (not_allowed name) vty, world)
      else if strncmp_is_zero name (bytes "lag") 3
      then some (cmd_err_nothing_todo, notify (unknown_interface name) vty, world)
      else (do
        unsplit ← is_child_of_unsplit unread name (rows world)
        if unsplit
            then some (cmd_err_nothing_todo, notify (parent_not_split name) vty, world)
            else if has_char b'.' name
            then some (create_sub_interface name vty world)
            else select_interface shell name (record vty { node = interface_node }) world)

-- ===== src/Cli/Select/Parent.antt =====
-- What vtysh_interface of src/cli/intf_vty.c does with the name of a split child.
use ops_intfd.Prelude.{
  ℕ, ◌^◌, ◌<◌, ◌≤◌, ◌≡◌, refl, ap, ◌∙◌, Option, true, false, none, some, List, ◌∷◌, ◌++◌, arith,
  ltb, length, Bool-cases, inl, inr, if◌then◌else◌, ◌>>=◌,
}
use ops_intfd.CString.{CString, strncmp_is_zero}
use ops_intfd.CString.Equality.{strcmp_iff}
use ops_intfd.CString.Decimal.{text, text-AreDigits, text-ne}
use ops_intfd.Schema.{Idl}
use ops_intfd.Database.{Ifrow}
use ops_intfd.Cli.{cmd_success, cmd_err_nothing_todo, is_parent_interface_split}
use ops_intfd.Cli.Names.{has_char}
use ops_intfd.Cli.Select.{
  parent_not_split, split_interface, select, interface_node, Vty, notify, Shell, has_split_error,
  is_child_of_unsplit, select_port, select_interface, vtysh_interface,
}
use ops_intfd.Cli.Select.Child.{
  child, digits-differ, AllSplit, has_unsplit-append, has_unsplit-AllSplit,
  is_child_of_unsplit-child, is_child_of_unsplit-large,
}

shorter : (a b : ℕ) → a < b → ltb a b ≡ true
shorter a b h = ground arith

module _ ⦃idl : Idl⦄ {World : Type 0} (shell : Shell World) where
  open shell use {rows, verify_ifname, lag_port_name_prefix, lag_port_name_prefix_length}

  -- The two names that are refused first are no names of children.
  past_names :
      (unread p : ℕ) (suffix : CString) (vty : Vty) (world : World)
      → p < 2 ^ 31
      → vtysh_interface shell unread (child p suffix) vty world ≡ (
          is_child_of_unsplit unread (child p suffix) (rows world) >>= λ unsplit.
          if unsplit
          then some (cmd_err_nothing_todo, notify (parent_not_split (child p suffix)) vty, world)
          else if has_char b'.' (child p suffix)
          then some (shell.create_sub_interface (child p suffix) vty world)
          else select_interface shell (child p suffix) (record vty { node = interface_node }) world)
  unfolding vtysh_interface
  past_names unread p suffix vty world h =
      let differ = digits-differ (text p) (b'-' ∷ suffix) (text-AreDigits p h) (text-ne p h) in
      rw (differ.0, differ.1) refl

  -- For a name of a number below 10000, a dash and more: if the Interface table has an interface
  -- whose name is the number and that is not split, the command returns CMD_ERR_NOTHING_TODO and
  -- says so, and changes neither the node, nor the index, nor the database.
  pub vtysh_interface-whole_parent :
      (unread p : ℕ) (suffix : CString) (vty : Vty) (world : World) (before after : List Ifrow)
      (parent : Ifrow)
      → p < 10000
      → rows world ≡ before ++ parent ∷ after
      → parent.name ≡ text p
      → is_parent_interface_split parent ≡ false
      → vtysh_interface shell unread (child p suffix) vty world
        ≡ some (cmd_err_nothing_todo, notify (parent_not_split (child p suffix)) vty, world)
  vtysh_interface-whole_parent unread p suffix vty world before after parent h table same whole =
      past_names unread p suffix vty world (omega arith)
      ∙ rw
          (
            is_child_of_unsplit-child unread p suffix (rows world) h,
            table,
            has_unsplit-append (text p) before after parent ((strcmp_iff _ _).1 same) whole,
          )
          refl

  -- For a name of a number from 10000, below 2 ^ 31, a dash and more: the command writes past the
  -- end of the array in which it prints the number, whatever the tables are.
  pub vtysh_interface-overflow :
      (unread p : ℕ) (suffix : CString) (vty : Vty) (world : World)
      → 10000 ≤ p
      → p < 2 ^ 31
      → vtysh_interface shell unread (child p suffix) vty world ≡ none
  vtysh_interface-overflow unread p suffix vty world h small =
      past_names unread p suffix vty world small
      ∙ rw (is_child_of_unsplit-large unread p suffix (rows world) h small) refl

  select_interface-port :
      (name : CString) (vty : Vty) (world : World)
      → verify_ifname name ≡ false
      → strncmp_is_zero name lag_port_name_prefix lag_port_name_prefix_length ≡ false
      → length name < shell.max_ifname_length
      → select_interface shell name vty world ≡ some (select_port shell name vty world)
  unfolding select_interface
  select_interface-port name vty world no_vlan no_lag short =
      rw (no_vlan, no_lag, shorter _ _ short) refl

  select_port-index :
      (name : CString) (vty : Vty) (world : World)
      → (vty' : Vty) × (world' : World) × (select_port shell name vty world
          ≡ (cmd_success, vty', world'))
        × (vty'.node ≡ vty.node)
        × (vty'.index ≡ some name)
  unfolding select_port
  select_port-index name vty world = elim (Bool-cases (has_split_error name (rows world))) [
    | inl error ↦ (select name (notify split_interface vty), world, rw error refl, refl, refl)
    | inr fine ↦ (select name vty, shell.default_port_add name world, rw fine refl, refl, refl)
  ]

  -- For a name of a number below 10000, a dash and more, without a full stop, that is shorter than
  -- MAX_IFNAME_LENGTH, does not start with the prefix of a lag and is none that verify_ifname takes:
  -- if every interface whose name is the number is split, the command succeeds and leaves the shell
  -- in INTERFACE_NODE with the name as its index.
  pub vtysh_interface-split_parent :
      (unread p : ℕ) (suffix : CString) (vty : Vty) (world : World)
      → p < 10000
      → AllSplit (text p) (rows world)
      → has_char b'.' (child p suffix) ≡ false
      → verify_ifname (child p suffix) ≡ false
      → strncmp_is_zero (child p suffix) lag_port_name_prefix lag_port_name_prefix_length ≡ false
      → length (child p suffix) < shell.max_ifname_length
      → (vty' : Vty) × (world' : World) × (vtysh_interface shell unread (child p suffix) vty world
          ≡ some (cmd_success, vty', world'))
        × (vty'.node ≡ interface_node)
        × (vty'.index ≡ some (child p suffix))
  vtysh_interface-split_parent unread p suffix vty world h all no_stop no_vlan no_lag short =
      let name = child p suffix in
      let (vty', world', chosen, node, index) =
        select_port-index name (record vty { node = interface_node }) world in
      (
        vty',
        world',
        past_names unread p suffix vty world (omega arith)
            ∙ rw
                (
                  is_child_of_unsplit-child unread p suffix (rows world) h,
                  has_unsplit-AllSplit (text p) (rows world) all,
                  no_stop,
                  select_interface-port name (record vty { node = interface_node }) world no_vlan
                      no_lag short,
                )
                (ap Option.some chosen),
        node,
        index,
      )

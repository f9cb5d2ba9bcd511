-- ===== src/Cli/Select/AfterSplit.antt =====
-- The commands split and interface of src/cli/intf_vty.c, one after the other: the children of the interface
-- that has been split.
use ops_intfd.Prelude.{
  ℕ, ◌<◌, ◌≡◌, ◌≢◌, sym, subst, ◌==◌, true, false, some, List, [], ◌∷◌, map, length, All,
  OnSome-some, Bool-cases, inl, inr, arith,
}
use ops_intfd.CString.{CString, strcmp_is_zero, strncmp_is_zero}
use ops_intfd.CString.Equality.{strcmp_iff, strcmp_refl}
use ops_intfd.CString.Decimal.{text}
use ops_intfd.Smap.Laws.{get-replaced}
use ops_intfd.Schema.{Idl, UserConfigKey, LaneSplit}
use ops_intfd.Database.{Ifrow}
use ops_intfd.Daemon.{Rows, put_row}
use ops_intfd.Cli.{CmdResult, cmd_success, Session, is_parent_interface_split}
use ops_intfd.Cli.Names.{has_char}
use ops_intfd.Cli.Split.{Db, Utils}
use ops_intfd.Cli.Split.Command.{find_row, cli_intf_split}
use ops_intfd.Cli.Split.Removal.{split_config, HasSplit, IsAnswer, cli_intf_split-IsAnswer}
use ops_intfd.Cli.Select.{interface_node, Vty, Shell, vtysh_interface}
use ops_intfd.Cli.Select.Child.{child, AllSplit}
use ops_intfd.Cli.Select.Parent.{vtysh_interface-split_parent}

-- Rows of the name have that number, as in a table whose index is the name.
abbrev pub IsAlone : CString → ℕ → Rows → Type 0
IsAlone name r = All (λ e. e.1.name ≡ name → e.0 ≡ r)

find_row-number :
    (name : CString) (rows : Rows) (alone r : ℕ) (row : Ifrow)
    → IsAlone name alone rows
    → find_row name rows ≡ some (r, row)
    → r ≡ alone
unfolding find_row
find_row-number name [] alone r row h e = absurd (cc e)
find_row-number name ((q, first) ∷ rows) alone r row (h, hs) e =
    elim (Bool-cases (strcmp_is_zero first.name name)) [
      | inl same ↦ let number = h ((strcmp_iff first.name name).0 same) in ground arith
      | inr other ↦ find_row-number name rows alone r row hs (ground arith)
    ]

module _ ⦃idl : Idl⦄ where
  split_config-split :
      (row : Ifrow)
      → is_parent_interface_split (record row { user_config = split_config row.user_config }) ≡ true
  unfolding is_parent_interface_split
  split_config-split row =
      rw
        (
          is_parent_interface_split,
          get-replaced row.user_config (idl.user_config_key UserConfigKey.lane_split)
              (idl.lane_split_name LaneSplit.split),
        )
        (strcmp_refl (idl.lane_split_name LaneSplit.split))

  put_row-AllSplit :
      (name : CString) (r : ℕ) (rows : Rows) (row : Ifrow)
      → IsAlone name r rows
      → is_parent_interface_split row ≡ true
      → AllSplit name (map (λ e. e.1) (put_row rows r row))
  unfolding put_row
  put_row-AllSplit name r [] row h divided = tt
  put_row-AllSplit name r ((q, first) ∷ rows) row (h, hs) divided = elim (Bool-cases (q == r)) [
    | inl e ↦ rw e (λ same. divided, put_row-AllSplit name r rows row hs divided)
    | inr e ↦ rw e (λ same. absurd (differ e (h same)), put_row-AllSplit name r rows row hs divided)
  ]
    where
      differ : (q == r) ≡ false → q ≢ r
      differ e same = ground arith

  HasSplit-AllSplit :
      (name : CString) (r : ℕ) (db db' : Db)
      → IsAlone name r db.rows
      → HasSplit name db db'
      → AllSplit name (map (λ e. e.1) db'.rows)
  HasSplit-AllSplit name r db db' alone (q, row, found, same) =
      subst (λ rows. AllSplit name (map (λ e. e.1) rows)) (sym same)
        (subst
          (λ n. AllSplit name (
            map (λ e. e.1)
              (put_row db.rows n (record row { user_config = split_config row.user_config }))))
          (sym (find_row-number name db.rows r q row alone found))
          (put_row-AllSplit name r db.rows
            (record row { user_config = split_config row.user_config }) alone
            (split_config-split row)))

  -- Where the name of the context is a number below 10000 and is that of one row at most: after a
  -- command "split" that has changed the tables, the command "interface" with that number, a dash and
  -- more succeeds and leaves the shell in INTERFACE_NODE with the child's name as its index. The
  -- child's name has no full stop, is shorter than MAX_IFNAME_LENGTH, does not start with the prefix
  -- of a lag and is none that verify_ifname takes.
  pub cli_intf_split-vtysh_interface :
      (utils : Utils) (shell : Shell Db) (s : Session) (answers : List ℕ) (db db' : Db)
      (result : CmdResult) (r p unread : ℕ) (suffix : CString) (vty : Vty)
      → s.no_cmd ≡ false
      → s.index ≡ text p
      → p < 10000
      → IsAlone (text p) r db.rows
      → cli_intf_split utils answers s db ≡ some (result, db')
      → db' ≢ db
      → shell.rows db' ≡ map (λ e. e.1) db'.rows
      → has_char b'.' (child p suffix) ≡ false
      → shell.verify_ifname (child p suffix) ≡ false
      → strncmp_is_zero
          (child p suffix)
          shell.lag_port_name_prefix
          shell.lag_port_name_prefix_length
        ≡ false
      → length (child p suffix) < shell.max_ifname_length
      → (vty' : Vty) × (world' : Db) × (vtysh_interface shell unread (child p suffix) vty db'
          ≡ some (cmd_success, vty', world'))
        × (vty'.node ≡ interface_node)
        × (vty'.index ≡ some (child p suffix))
  cli_intf_split-vtysh_interface utils shell s answers db db' result r p unread suffix vty yes_cmd
        index small alone ran changed table no_stop no_vlan no_lag short =
      vtysh_interface-split_parent shell unread p suffix vty db' small
        (subst (AllSplit (text p)) (sym table) (
          divided (
            OnSome-some (IsAnswer utils s answers db) (cli_intf_split utils answers s db)
              (cli_intf_split-IsAnswer utils s answers db yes_cmd) ran)))
        no_stop no_vlan no_lag short
    where
      divided :
          IsAnswer utils s answers db (result, db') → AllSplit (text p) (map (λ e. e.1) db'.rows)
      divided (inl same) = absurd (changed same)
      divided (inr (done, commits, answer, gone, split)) =
          HasSplit-AllSplit (text p) r db db' alone
            (subst (λ name. HasSplit name db db') index split)

-- ===== src/Daemon/InterfaceChanges.antt =====
-- handle_interfaces_config_mods of src/intfd_ovsdb_if.c: what it does for a row that was inserted or
-- modified, and for the children of its interface.
use ops_intfd.Prelude.{
  ℕ, zero, suc, Bool, true, false, ◌||◌, ◌&&◌, Option, none, some, List, [], ◌∷◌, if◌then◌else◌,
  ◌>>=◌,
}
use ops_intfd.CString.{CString}
use ops_intfd.Smap.{Smap}
use ops_intfd.Schema.{Idl}
use ops_intfd.Database.{Ifrow}
use ops_intfd.Interface.{Iface, IntfUserCfg}
use ops_intfd.Parse.UserCfg.{parse_user_cfg}
use ops_intfd.Parse.PmInfo.{parse_split_pm_info}
use ops_intfd.Update.{
  update_modified, read_pm_info, LaneSplit-discrete, PmConnector-discrete, differs,
}
use ops_intfd.Daemon.{
  Shash, shash_find, Rows, get_row, PortRow, World, store_iface, store_row, for_each, configure,
}
use ops_intfd.Daemon.Ports.{port_parse_admin}
use ops_intfd.Daemon.Interfaces.{process_parent_child}

module _ ⦃idl : Idl⦄ where
  -- The local variables of handle_interfaces_config_mods that live through its loop.
  pub record Locals : Type 0 where
    pub split_changed : Bool
    pub pm_info_changed : Bool
    pub new_user_cfg : IntfUserCfg

  -- intfd_parse_split_pm_info(&(intf->split_children[i]->pm_info), ...)
  unfoldable pub renew_child : Smap → Option ℕ → World → Option World
  renew_child pm_info none w = none
  renew_child pm_info (some a) w = do
    intf ← w.heap a
    some (store_iface a (record intf { pm_info = parse_split_pm_info pm_info }) w)

  -- The first `n` entries of intf->split_children; a null array or a missing entry faults.
  unfoldable pub children_of : ℕ → List (Option ℕ) → Option (List (Option ℕ))
  children_of zero children = some []
  children_of (suc n) [] = none
  children_of (suc n) (c ∷ children) = do rest ← children_of n children; some (c ∷ rest)

  -- The loop of set_interface_config over the children, by both arrays.
  unfoldable pub configure_children : List (Option ℕ) → List ℕ → World → Option World
  configure_children [] rows w = some w
  configure_children (none ∷ children) rows w = none
  configure_children (some a ∷ children) [] w = none
  configure_children (some a ∷ children) (r ∷ rows) w =
      configure r a w >>= configure_children children rows

  unfoldable pub parent_pm_info : Rows → Ifrow → Option (Option Smap)
  parent_pm_info rows row = elim row.split_parent [
    | none ↦ some none
    | some p ↦ (do parent ← get_row rows p; some (some parent.pm_info))
  ]

  abbrev pub has_row_children : Ifrow → Bool
  has_row_children row = elim row.split_children [ [] ↦ false | _ ∷ _ ↦ true ]

  abbrev pub children_array : Iface → List (Option ℕ)
  children_array intf = elim intf.split_children [ none ↦ [] | some children ↦ children ]

  -- The end of the body of the loop: a changed module, and then a changed split, go on to the
  -- children. The flags are as they are left.
  unfoldable pub renew_children : Locals → Ifrow → Iface → World → Option (Locals × World)
  unfolding for_each renew_child configure_children children_of
  renew_children locals row intf w = do
    children ← children_of intf.n_split_children (children_array intf)
    let renews = locals.pm_info_changed && has_row_children row
    let split = locals.split_changed || renews
    w1 ← (if renews then for_each (renew_child row.pm_info) children w else some w)
    w2 ← (if split then configure_children children row.split_children w1 else some w1)
    some (record locals { split_changed = split }, w2)

  -- The branch for a row that was modified. The Boolean is cfg_changed.
  unfoldable pub handle_modified :
      List PortRow → ℕ → ℕ → Locals → World → Option (Locals × Bool × World)
  unfolding port_parse_admin parent_pm_info renew_children
  handle_modified ports r a locals w = do
    row ← get_row w.rows r
    intf ← w.heap a
    parent ← parent_pm_info w.rows row
    new ← parse_user_cfg w.base_mtu locals.new_user_cfg row.user_config row.hw_intf_info
    let port_admin = (port_parse_admin ports w.rows row.name).1
    (changed, row', intf') ←
        update_modified w.heap w.base_mtu locals.new_user_cfg port_admin parent row intf
    let new_pm_info = read_pm_info intf.hw_info parent row.pm_info
    let locals' : Locals = record {
      split_changed =
          locals.split_changed
          || differs LaneSplit-discrete intf.user_cfg.lane_split new.lane_split;
      pm_info_changed =
          locals.pm_info_changed
          || differs PmConnector-discrete intf.pm_info.connector new_pm_info.connector;
      new_user_cfg = new;
    }
    (after, w') ← renew_children locals' row' intf' (store_iface a intf' (store_row r row' w))
    some (after, changed, w')

  unfoldable pub handle_inserted : ℕ → ℕ → World → Option World
  unfolding process_parent_child
  handle_inserted r a w = do
    row ← get_row w.rows r
    w' ← process_parent_child a row w
    configure r a w'

  -- The body of the loop over the cache.
  unfoldable pub handle_interface :
      List PortRow → Shash ℕ → CString → ℕ → Locals → World → Option (Locals × Bool × World)
  unfolding shash_find handle_inserted handle_modified
  handle_interface ports present name a locals w = do
    r ← shash_find present name
    row ← get_row w.rows r
    elim row.is_inserted [
      | true ↦ (do w' ← handle_inserted r a w; some (locals, true, w'))
      | false ↦ elim row.is_modified [
        | true ↦ handle_modified ports r a locals w
        | false ↦ some (locals, false, w)
      ]
    ]

  unfoldable pub handle_interfaces :
      List PortRow → Shash ℕ → Shash ℕ → Locals → World → Option (Bool × World)
  unfolding handle_interface
  handle_interfaces ports present [] locals w = some (false, w)
  handle_interfaces ports present ((name, a) ∷ rest) locals w = do
    (locals', rc, w1) ← handle_interface ports present name a locals w
    (rcs, w2) ← handle_interfaces ports present rest locals' w1
    some (rc || rcs, w2)

  -- `stack` is what the local variable new_user_cfg held before.
  unfoldable pub handle_interfaces_config_mods :
      IntfUserCfg → List PortRow → Shash ℕ → World → Option (Bool × World)
  unfolding handle_interfaces
  handle_interfaces_config_mods stack ports present w =
      handle_interfaces ports present w.all_interfaces
        (record { split_changed = false; pm_info_changed = false; new_user_cfg = stack }) w

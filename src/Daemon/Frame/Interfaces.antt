-- ===== src/Daemon/Frame/Interfaces.antt =====
-- handle_interfaces_config_mods and intfd_arbiter_run of src/intfd_ovsdb_if.c leave the cache of the
-- interfaces alone.
use ops_intfd.Prelude.{
  ℕ, length, ◌||◌, ◌&&◌, Option, none, some, List, [], ◌∷◌, ◌>>=◌, if◌then◌else◌, OnSome-bind,
  OnSome-option, OnSome-bool, OnSome-if,
}
use ops_intfd.CString.{CString}
use ops_intfd.Smap.{Smap}
use ops_intfd.Schema.{Idl}
use ops_intfd.Database.{Ifrow}
use ops_intfd.Interface.{Iface, IntfUserCfg}
use ops_intfd.Pass.{arbiter_run}
use ops_intfd.Parse.UserCfg.{parse_user_cfg}
use ops_intfd.Update.{update_modified}
use ops_intfd.Daemon.{
  store_iface, Shash, shash_find, get_row, PortRow, World, for_each, configure, store_row,
}
use ops_intfd.Daemon.Interfaces.{process_parent_child, find_children}
use ops_intfd.Daemon.InterfaceChanges.{
  Locals, renew_child, children_of, children_array, configure_children, parent_pm_info,
  has_row_children, renew_children, handle_modified, handle_inserted, handle_interface,
  handle_interfaces, handle_interfaces_config_mods,
}
use ops_intfd.Daemon.Run.{run_arbiter}
use ops_intfd.Daemon.Frame.{
  IsFramed-refl, Framed, FramedWorld, Framed-bind, after, final, stored-Framed,
  store_iface-IsFramed, for_each-Framed, configure-Framed,
}

module _ ⦃idl : Idl⦄ where
  -- The branch for an interface that has no parent.
  children_lem :
      (a : ℕ) (rows : List ℕ) (w : World)
      → FramedWorld w (elim rows [
        | [] ↦ some w
        | r ∷ rest ↦ (do
          intf ← w.heap a
          found ← find_children w.rows w.all_interfaces (r ∷ rest)
          some (
              store_iface a
                (record intf { split_children = some found; n_split_children = length (r ∷ rest) })
                w))
      ])
  children_lem a [] w = IsFramed-refl w
  children_lem a (r ∷ rest) w = OnSome-bind _ (w.heap a) _ λ intf e.
      OnSome-bind _ (find_children w.rows w.all_interfaces (r ∷ rest)) _
        λ found _. store_iface-IsFramed a intf _ w e

  process_parent_child-Framed :
      (a : ℕ) (row : Ifrow) (w : World) → FramedWorld w (process_parent_child a row w)
  unfolding process_parent_child
  process_parent_child-Framed a row w =
      OnSome-option _ row.split_parent _ _ (children_lem a row.split_children w) λ p.
        OnSome-bind _ (w.heap a) _ λ intf e. OnSome-bind _ (get_row w.rows p) _ λ parent _.
          OnSome-option _ (shash_find w.all_interfaces parent.name) _ _
            (store_iface-IsFramed a intf _ w e) λ b. store_iface-IsFramed a intf _ w e

  renew_child-Framed :
      (pm_info : Smap) (child : Option ℕ) (w : World) → FramedWorld w (renew_child pm_info child w)
  unfolding renew_child
  renew_child-Framed pm_info none w = tt
  renew_child-Framed pm_info (some a) w =
      OnSome-bind _ (w.heap a) _ λ intf e. store_iface-IsFramed a intf _ w e

  configure_children-Framed :
      (children : List (Option ℕ)) (rows : List ℕ) (w : World)
      → FramedWorld w (configure_children children rows w)
  unfolding configure_children
  configure_children-Framed [] rows w = IsFramed-refl w
  configure_children-Framed (none ∷ children) rows w = tt
  configure_children-Framed (some a ∷ children) [] w = tt
  configure_children-Framed (some a ∷ children) (r ∷ rows) w =
      Framed-bind (λ w. w) (λ w. w) w (configure r a w) _ (configure-Framed r a w)
        (configure_children-Framed children rows)

  renew_children-Framed :
      (locals : Locals) (row : Ifrow) (intf : Iface) (w : World)
      → Framed after w (renew_children locals row intf w)
  unfolding renew_children
  renew_children-Framed locals row intf w =
      OnSome-bind _ (children_of intf.n_split_children (children_array intf)) _ λ children _.
        Framed-bind after (λ w. w) w
          (if locals.pm_info_changed && has_row_children row
            then for_each (renew_child row.pm_info) children w
            else some w)
          _
          (OnSome-if _ (locals.pm_info_changed && has_row_children row) _ _
            (for_each-Framed (renew_child row.pm_info) (renew_child-Framed row.pm_info) children w)
            (IsFramed-refl w))
          λ w1.
            Framed-bind after (λ w. w) w1 _ _
              (OnSome-if _ (locals.split_changed || locals.pm_info_changed && has_row_children row)
                (configure_children children row.split_children w1) (some w1)
                (configure_children-Framed children row.split_children w1) (IsFramed-refl w1))
              IsFramed-refl

  handle_modified-Framed :
      (ports : List PortRow) (r a : ℕ) (locals : Locals) (w : World)
      → Framed final w (handle_modified ports r a locals w)
  unfolding handle_modified
  handle_modified-Framed ports r a locals w = OnSome-bind _ (get_row w.rows r) _ λ row _.
      OnSome-bind _ (w.heap a) _ λ intf e. OnSome-bind _ (parent_pm_info w.rows row) _ λ parent _.
        OnSome-bind _
          (parse_user_cfg w.base_mtu locals.new_user_cfg row.user_config row.hw_intf_info) _
          λ new _.
            OnSome-bind _ (update_modified w.heap w.base_mtu locals.new_user_cfg _ parent row intf)
              _
              λ (changed, row', intf') _. stored-Framed final a intf intf' w _ e (
                Framed-bind final after (store_iface a intf' w)
                  (renew_children _ row' intf' (store_iface a intf' (store_row r row' w))) _
                  (renew_children-Framed _ row' intf' _) λ (last, w'). IsFramed-refl w')

  handle_inserted-Framed : (r a : ℕ) (w : World) → FramedWorld w (handle_inserted r a w)
  unfolding handle_inserted
  handle_inserted-Framed r a w = OnSome-bind _ (get_row w.rows r) _ λ row _.
      Framed-bind (λ w. w) (λ w. w) w (process_parent_child a row w) _
        (process_parent_child-Framed a row w) (configure-Framed r a)

  handle_interface-Framed :
      (ports : List PortRow) (present : Shash ℕ) (name : CString) (a : ℕ) (locals : Locals)
      (w : World)
      → Framed final w (handle_interface ports present name a locals w)
  unfolding handle_interface
  handle_interface-Framed ports present name a locals w =
      OnSome-bind _ (shash_find present name) _ λ r _. OnSome-bind _ (get_row w.rows r) _ λ row _.
        OnSome-bool _ row.is_inserted _ _
          (Framed-bind final (λ w. w) w (handle_inserted r a w) _ (handle_inserted-Framed r a w)
            IsFramed-refl)
          (OnSome-bool _ row.is_modified _ _ (handle_modified-Framed ports r a locals w)
            (IsFramed-refl w))

  handle_interfaces-Framed :
      (ports : List PortRow) (present rest : Shash ℕ) (locals : Locals) (w : World)
      → Framed after w (handle_interfaces ports present rest locals w)
  unfolding handle_interfaces
  handle_interfaces-Framed ports present [] locals w = IsFramed-refl w
  handle_interfaces-Framed ports present ((name, a) ∷ rest) locals w =
      Framed-bind after final w (handle_interface ports present name a locals w) _
        (handle_interface-Framed ports present name a locals w)
        λ (locals', rc, w1).
          Framed-bind after after w1 (handle_interfaces ports present rest locals' w1) _
            (handle_interfaces-Framed ports present rest locals' w1) λ (rcs, w2). IsFramed-refl w2

  pub handle_interfaces_config_mods-Framed :
      (stack : IntfUserCfg) (ports : List PortRow) (present : Shash ℕ) (w : World)
      → Framed after w (handle_interfaces_config_mods stack ports present w)
  unfolding handle_interfaces_config_mods
  handle_interfaces_config_mods-Framed stack ports present w =
      handle_interfaces-Framed ports present w.all_interfaces _ w

  pub run_arbiter-Framed : (w : World) → Framed after w (run_arbiter w)
  unfolding run_arbiter
  run_arbiter-Framed w =
      OnSome-bind _ (arbiter_run w.layers _) _ λ (rc, layers, rows) _. IsFramed-refl w

-- ===== src/Daemon/Frame/Ports.antt =====
-- port_reconfigure of src/intfd_ovsdb_if.c leaves the cache of the interfaces alone.
use ops_intfd.Prelude.{
  ℕ, Bool, true, false, ◌||◌, ◌&&◌, not, none, some, List, [], ◌∷◌, ◌==◌, if◌then◌else◌,
  OnSome-bind, OnSome-option, OnSome-bool, OnSome-if, option_split,
}
use ops_intfd.Schema.{Idl}
use ops_intfd.Daemon.{Shash, shash_find, get_row, PortRow, Feed, World, for_each, configure}
use ops_intfd.Daemon.Ports.{add_new_port, remove_interface_from_port, del_old_port}
use ops_intfd.Daemon.PortChanges.{
  refresh_interface, handle_port, handle_ports, add_del_interface_handle_port_config_mods,
  add_ports, first_deleted, collect_ports, delete_port, delete_first, is_virtual_port,
  port_reconfigure,
}
use ops_intfd.Daemon.Frame.{
  IsFramed, IsFramed-refl, IsFramed-trans, Framed, FramedWorld, Framed-bind, after, final,
  stored-Framed, for_each-Framed, configure-Framed, del_old_port-Framed,
  remove_interface_from_port-Framed,
}

add_new_port-IsFramed : (port : PortRow) (w : World) → IsFramed w (add_new_port port w)
unfolding add_new_port
add_new_port-IsFramed port w =
    option_split (IsFramed w) (shash_find w.all_ports port.name) _ _ (IsFramed-refl w)
      λ _. IsFramed-refl w

add_ports-IsFramed : (present : Shash PortRow) (w : World) → IsFramed w (add_ports present w)
unfolding add_ports
add_ports-IsFramed [] w = IsFramed-refl w
add_ports-IsFramed ((name, port) ∷ rest) w =
    let next : World = elim (shash_find w.all_ports name) [
      | none ↦ add_new_port port w
      | some _ ↦ w
    ] in
    IsFramed-trans w next (add_ports rest next)
      (option_split (IsFramed w) (shash_find w.all_ports name) _ _ (add_new_port-IsFramed port w)
        λ _. IsFramed-refl w)
      (add_ports-IsFramed rest next)

module _ ⦃idl : Idl⦄ where
  refresh_interface-Framed :
      (port : PortRow) (r : ℕ) (w : World) → FramedWorld w (refresh_interface port r w)
  unfolding refresh_interface
  refresh_interface-Framed port r w = OnSome-bind _ (get_row w.rows r) _ λ row _.
      OnSome-bind _ (shash_find w.all_interfaces row.name) _ λ a _.
        OnSome-bind _ (w.heap a) _
          λ intf e. stored-Framed (λ w. w) a _ _ w (configure r a _) e (configure-Framed r a _)

  handle_port-Framed :
      (ports : List PortRow) (port : PortRow) (w : World)
      → Framed after w (handle_port ports port w)
  unfolding handle_port
  handle_port-Framed ports port w = OnSome-if _ (not port.is_modified) _ _ (IsFramed-refl w) (
      OnSome-option _ (shash_find w.all_ports port.name) _ _ (IsFramed-refl w) λ info.
        Framed-bind after (λ w. w) w (for_each (refresh_interface port) port.interfaces w) _
          (for_each-Framed (refresh_interface port) (refresh_interface-Framed port) port.interfaces
            w)
          λ w1.
            Framed-bind after after w1 (remove_interface_from_port ports port w1) _
              (remove_interface_from_port-Framed ports port w1) λ (removed, w2). IsFramed-refl w2)

  handle_ports-Framed :
      (ports rest : List PortRow) (w : World) → Framed after w (handle_ports ports rest w)
  unfolding handle_ports
  handle_ports-Framed ports [] w = IsFramed-refl w
  handle_ports-Framed ports (port ∷ rest) w =
      Framed-bind after after w (handle_port ports port w) _ (handle_port-Framed ports port w)
        λ (rc, w1).
          Framed-bind after after w1 (handle_ports ports rest w1) _
            (handle_ports-Framed ports rest w1) λ (rcs, w2). IsFramed-refl w2

  config_mods-Framed :
      (feed : Feed) (w : World) → Framed after w (add_del_interface_handle_port_config_mods feed w)
  unfolding add_del_interface_handle_port_config_mods
  config_mods-Framed feed w =
      OnSome-if _ (feed.admin_modified || feed.interfaces_modified) _ _
        (handle_ports-Framed feed.ports feed.ports w) (IsFramed-refl w)

  delete_first-Framed : (feed : Feed) (w : World) → Framed final w (delete_first feed w)
  unfolding delete_first
  delete_first-Framed feed w =
      OnSome-option _ (first_deleted (collect_ports feed.ports []) w.all_ports) _ _
        (IsFramed-refl w)
        λ (name, info).
          Framed-bind final (λ w. w) w (del_old_port feed.ports name info w) _
            (del_old_port-Framed feed.ports name info w) IsFramed-refl

  -- Past the test for a port that is left.
  delete_lem :
      (feed : Feed) (ports : List PortRow) (w : World)
      → Framed final w (elim ports [
        | [] ↦ none
        | port ∷ _ ↦
            if is_virtual_port w.rows port.name then some (true, false, w) else delete_first feed w
      ])
  delete_lem feed [] w = tt
  delete_lem feed (port ∷ ports) w =
      OnSome-if (λ (r : Bool × Bool × World). IsFramed w (final r))
        (is_virtual_port w.rows port.name) _ _ (IsFramed-refl w) (delete_first-Framed feed w)

  delete_port-Framed : (feed : Feed) (w : World) → Framed final w (delete_port feed w)
  unfolding delete_port
  delete_port-Framed feed w = delete_lem feed feed.ports w

  pub port_reconfigure-Framed : (feed : Feed) (w : World) → Framed after w (port_reconfigure feed w)
  unfolding port_reconfigure
  port_reconfigure-Framed feed w =
      OnSome-if _ (not feed.ports_modified && not feed.ports_deleted && not feed.ports_inserted) _ _
        (IsFramed-refl w)
        (OnSome-if _ (feed.seqno == w.idl_seqno) _ _ (IsFramed-refl w) (
          OnSome-if _ feed.ports_inserted _ _
            (Framed-bind after (λ w. w) w (some (add_ports (collect_ports feed.ports []) w))
              (add_del_interface_handle_port_config_mods feed)
              (add_ports-IsFramed (collect_ports feed.ports []) w) (config_mods-Framed feed))
            (OnSome-if _ feed.ports_deleted _ _
              (Framed-bind after final w (delete_port feed w) _ (delete_port-Framed feed w)
                λ (ends, rc, w').
                  OnSome-bool _ ends _ _ (IsFramed-refl w') (config_mods-Framed feed w'))
              (config_mods-Framed feed w))))

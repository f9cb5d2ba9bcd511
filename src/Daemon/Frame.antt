-- ===== src/Daemon/Frame.antt =====
-- What the operations of src/intfd_ovsdb_if.c on ports and interfaces leave alone: the cache of the
-- interfaces, and which addresses are allocated.
pub mod Ports
pub mod Interfaces
use ops_intfd.Prelude.{
  ℕ, ◌≡◌, refl, ◌∙◌, sym, ap, inl, inr, Bool-cases, Bool, true, false, Option, none, some, List, [],
  ◌∷◌, ◌==◌, if◌then◌else◌, ◌>>=◌, OnSome, OnSome-bind, OnSome-map, OnSome-option, OnSome-if,
  OnSome-bool, is_some, arith,
}
use ops_intfd.Schema.{Idl}
use ops_intfd.Interface.{Iface}
use ops_intfd.Config.State.{Heap}
use ops_intfd.Config.Set.{set_interface_config}
use ops_intfd.CString.{CString}
use ops_intfd.Schema.{PortAdmin}
use ops_intfd.Daemon.{
  PortRow, PortInfo, Shash, shash_find, get_row, World, update_heap, store_iface, store_row,
  for_each, configure,
}
use ops_intfd.Daemon.Ports.{
  get_matching_interface_row, get_matching_port_row, release_row, del_old_port, readmit,
  store_admin, leave_port, empty_port, drop_lost, reset_row, occurs, has_lost, port_parse_admin,
  remove_interface_from_port,
}

-- The address is allocated.
abbrev pub is_live : Heap → ℕ → Bool
is_live heap a = is_some (heap a)

-- The second memory caches the same interfaces and has the same addresses allocated.
abbrev pub IsFramed : World → World → Type 0
IsFramed w w' =
    (w'.all_interfaces ≡ w.all_interfaces)
    × (w'.next ≡ w.next)
    × ((a : ℕ) → is_live w'.heap a ≡ is_live w.heap a)

pub IsFramed-refl : (w : World) → IsFramed w w
IsFramed-refl w = (refl, refl, λ a. refl)

pub IsFramed-trans : (w1 w2 w3 : World) → IsFramed w1 w2 → IsFramed w2 w3 → IsFramed w1 w3
IsFramed-trans w1 w2 w3 (c, n, l) (c', n', l') = (c' ∙ c, n' ∙ n, λ a. l' a ∙ l a)

-- The memory in a result is framed.
module _ {A : Type 0} (memory : A → World) where
  abbrev pub Framed : World → Option A → Type 0
  Framed w = OnSome (λ a. IsFramed w (memory a))

  -- An operation that returns another memory, and then the rest.
  pub Framed-bind :
      {B : Type 0} (first : B → World) (w : World) (m : Option B) (f : B → Option A)
      → OnSome (λ b. IsFramed w (first b)) m
      → ((b : B) → Framed (first b) (f b))
      → Framed w (m >>= f)
  Framed-bind first w none f h k = tt
  Framed-bind first w (some b) f h k =
      OnSome-map (f b) (λ a. IsFramed-trans w (first b) (memory a) h) (k b)

-- The memory beside another result.
abbrev pub after : {A : Type 0} → A × World → World
after (_, w) = w

-- The memory after two other results.
abbrev pub final : {A B : Type 0} → A × B × World → World
final (_, _, w) = w

abbrev pub FramedWorld : World → Option World → Type 0
FramedWorld = Framed (λ w. w)

write_lem :
    (c : Bool) (cell : Option Iface) (intf' : Iface)
    → (c ≡ true → is_some cell ≡ true)
    → is_some (if c then some intf' else cell) ≡ is_some cell
write_lem true cell intf' h = sym (h refl)
write_lem false cell intf' h = refl

eq_sound : (a b : ℕ) → (a == b) ≡ true → a ≡ b
eq_sound a b h = ground arith

pub store_iface-IsFramed :
    (a : ℕ) (intf intf' : Iface) (w : World)
    → w.heap a ≡ some intf
    → IsFramed w (store_iface a intf' w)
store_iface-IsFramed a intf intf' w e = (
  refl,
  refl,
  λ b. write_lem (a == b) (w.heap b) intf' λ t. ap is_some (sym (ap w.heap (eq_sound a b t)) ∙ e),
)

-- A write to an allocated address, and then the rest.
pub stored-Framed :
    {A : Type 0} (memory : A → World) (a : ℕ) (intf intf' : Iface) (w : World) (m : Option A)
    → w.heap a ≡ some intf
    → Framed memory (store_iface a intf' w) m
    → Framed memory w m
stored-Framed memory a intf intf' w m e =
    OnSome-map m λ x.
      IsFramed-trans w (store_iface a intf' w) (memory x) (store_iface-IsFramed a intf intf' w e)

pub for_each-Framed :
    {A : Type 0} (body : A → World → Option World)
    → ((x : A) (w : World) → FramedWorld w (body x w))
    → (xs : List A) (w : World) → FramedWorld w (for_each body xs w)
unfolding for_each
for_each-Framed body h [] w = IsFramed-refl w
for_each-Framed body h (x ∷ xs) w =
    Framed-bind (λ w. w) (λ w. w) w (body x w) (for_each body xs) (h x w)
      (for_each-Framed body h xs)

module _ ⦃idl : Idl⦄ where
  pub configure-Framed : (r a : ℕ) (w : World) → FramedWorld w (configure r a w)
  unfolding configure
  configure-Framed r a w = OnSome-bind _ (get_row w.rows r) _ λ row _.
      OnSome-bind _ (w.heap a) _ λ intf e.
        OnSome-bind _ (set_interface_config w.heap row intf) _
          λ (row', intf') _. store_iface-IsFramed a intf intf' w e

  pub reset_row-Framed : (r : ℕ) (w : World) → FramedWorld w (reset_row r w)
  unfolding reset_row
  reset_row-Framed r w = OnSome-bind _ (get_row w.rows r) _ λ row _. IsFramed-refl w

  pub release_row-Framed :
      (ports : List PortRow) (name : CString) (r : ℕ) (w : World)
      → FramedWorld w (release_row ports name r w)
  unfolding release_row
  release_row-Framed ports name r w =
      OnSome-option _ (get_matching_interface_row w.rows name) _ _ (IsFramed-refl w) λ _.
        OnSome-bind _ (get_row w.rows r) _ λ row _.
          OnSome-option _ (get_matching_port_row ports w.rows row.name) _ _ (reset_row-Framed r w)
            λ _. IsFramed-refl w

  pub del_old_port-Framed :
      (ports : List PortRow) (name : CString) (info : PortInfo) (w : World)
      → FramedWorld w (del_old_port ports name info w)
  unfolding del_old_port
  del_old_port-Framed ports name info w =
      Framed-bind (λ w. w) (λ w. w) w (for_each (release_row ports name) info.interfaces w) _
        (for_each-Framed (release_row ports name) (release_row-Framed ports name) info.interfaces w)
        IsFramed-refl

  pub readmit-Framed :
      (port_admin : PortAdmin) (r a : ℕ) (w : World) → FramedWorld w (readmit port_admin r a w)
  unfolding readmit
  readmit-Framed port_admin r a w = OnSome-bind _ (get_row w.rows r) _ λ row _.
      OnSome-bind _ (w.heap a) _
        λ intf e. stored-Framed (λ w. w) a _ _ w (configure r a _) e (configure-Framed r a _)

  store_admin-Framed :
      (a : ℕ) (port_admin : PortAdmin) (w : World) → FramedWorld w (store_admin a port_admin w)
  store_admin-Framed a port_admin w =
      OnSome-bind _ (w.heap a) _ λ intf e. store_iface-IsFramed a intf _ w e

  leave_port-Framed :
      (ports : List PortRow) (r a : ℕ) (w : World) → FramedWorld w (leave_port ports r a w)
  unfolding leave_port
  leave_port-Framed ports r a w = OnSome-bind _ (get_row w.rows r) _ λ row _.
      let (found, port_admin) = port_parse_admin ports w.rows row.name in
      OnSome-bool _ found _ _ (readmit-Framed port_admin r a w) (
        Framed-bind (λ w. w) (λ w. w) w (store_admin a port_admin w) _
          (store_admin-Framed a port_admin w) (reset_row-Framed r))

  pub empty_port-Framed :
      (ports : List PortRow) (r : ℕ) (w : World) → FramedWorld w (empty_port ports r w)
  unfolding empty_port
  empty_port-Framed ports r w = OnSome-bind _ (get_row w.rows r) _ λ row _.
      OnSome-bind _ (shash_find w.all_interfaces row.name) _ λ a _. leave_port-Framed ports r a w

  pub drop_lost-Framed :
      (ports : List PortRow) (kept : List ℕ) (r : ℕ) (w : World)
      → FramedWorld w (drop_lost ports kept r w)
  unfolding drop_lost
  drop_lost-Framed ports kept r w = OnSome-if _ (occurs r kept) _ _ (IsFramed-refl w) (
      OnSome-bind _ (get_row w.rows r) _ λ row _.
        OnSome-option _ (shash_find w.all_interfaces row.name) _ _ (reset_row-Framed r w)
          λ a. leave_port-Framed ports r a w)

  drop_all-Framed :
      (ports : List PortRow) (kept lost : List ℕ) (w : World)
      → FramedWorld w (for_each (drop_lost ports kept) lost w)
  drop_all-Framed ports kept = for_each-Framed (drop_lost ports kept) (drop_lost-Framed ports kept)

  -- Both branches, by the interfaces that the port has left.
  remove_lem :
      (ports : List PortRow) (info : PortInfo) (kept : List ℕ) (w : World)
      → Framed after w (elim kept [
        | [] ↦ (do
          w1 ← for_each (empty_port ports) info.interfaces w
          w2 ← for_each (drop_lost ports []) info.interfaces w1
          some (true, w2))
        | r ∷ rest ↦ (do
          w2 ← for_each (drop_lost ports (r ∷ rest)) info.interfaces w
          some (has_lost info.interfaces (r ∷ rest), w2))
      ])
  remove_lem ports info [] w =
      Framed-bind after (λ w. w) w (for_each (empty_port ports) info.interfaces w) _
        (for_each-Framed (empty_port ports) (empty_port-Framed ports) info.interfaces w)
        λ w1.
          Framed-bind after (λ w. w) w1 (for_each (drop_lost ports []) info.interfaces w1) _
            (drop_all-Framed ports [] info.interfaces w1) IsFramed-refl
  remove_lem ports info (r ∷ rest) w =
      Framed-bind after (λ w. w) w (for_each (drop_lost ports (r ∷ rest)) info.interfaces w) _
        (drop_all-Framed ports (r ∷ rest) info.interfaces w) IsFramed-refl

  pub remove_interface_from_port-Framed :
      (ports : List PortRow) (port : PortRow) (w : World)
      → Framed after w (remove_interface_from_port ports port w)
  unfolding remove_interface_from_port
  remove_interface_from_port-Framed ports port w =
      OnSome-option _ (shash_find w.all_ports port.name) _ _ (IsFramed-refl w)
        λ info. remove_lem ports info port.interfaces w

-- ===== src/Daemon/Release.antt =====
-- What src/intfd_ovsdb_if.c does to a cached port that has no row (delete_first and del_old_port), and to
-- the lanes of an interface that is freed.
use ops_intfd.Prelude.{
  ℕ, ◌≡◌, refl, ◌∙◌, Bool, true, false, ◌++◌, ◌⊎◌, Option, none, some, List, [], ◌∷◌, ◌==◌, ◌>>=◌,
  if◌then◌else◌, is_some, Option-cases, inl, inr, OnSome, OnSome-some, OnSome-option, OnSome-bind,
  OnSome-map, arith, subst,
}
use ops_intfd.CString.{CString, strcmp_is_zero}
use ops_intfd.Schema.{Idl}
use ops_intfd.Database.{Ifrow}
use ops_intfd.Interface.{Iface}
use ops_intfd.Config.State.{Heap, is_virtual, calc_state, calc_intf_op_state_n_reason}
use ops_intfd.Config.Set.{set_interface_config}
use ops_intfd.Config.Set.Outcome.{prepared-eq}
use ops_intfd.Daemon.{
  Shash, shash_find, get_row, PortRow, PortInfo, Feed, World, for_each, configure,
}
use ops_intfd.Daemon.Ports.{
  get_matching_interface_row, get_matching_port_row, reset_row, release_row, del_old_port,
}
use ops_intfd.Daemon.OldPort.{
  has_row, ArePresent, first_deleted-none, first_deleted-some, AllHaveRows, AllHaveRows-at,
  del_old_port_total,
}
use ops_intfd.Daemon.PortChanges.{collect_ports, first_deleted, delete_first}
use ops_intfd.Daemon.Interfaces.{del_old_interface}
use ops_intfd.Daemon.Maps.{find-delete}

for_each-keeps {ℓ} :
    {A : Type 0} {X : Type ℓ} (part : World → X) (body : A → World → Option World)
    → ((x : A) (w : World) → OnSome (λ w'. part w' ≡ part w) (body x w))
    → (xs : List A) (w : World) → OnSome (λ w'. part w' ≡ part w) (for_each body xs w)
unfolding for_each
for_each-keeps part body h [] w = refl
for_each-keeps part body h (x ∷ xs) w = OnSome-bind _ (body x w) _ λ w1 e.
    OnSome-map (for_each body xs w1) (λ w2 k. k ∙ OnSome-some (λ w'. part w' ≡ part w) _ (h x w) e)
      (for_each-keeps part body h xs w1)

module _ ⦃idl : Idl⦄ where
  release_row-keeps :
      (ports : List PortRow) (name : CString) (r : ℕ) (w : World)
      → OnSome (λ w'. w'.all_ports ≡ w.all_ports) (release_row ports name r w)
  unfolding release_row reset_row
  release_row-keeps ports name r w =
      OnSome-option _ (get_matching_interface_row w.rows name) _ _ refl λ _.
        OnSome-bind _ (get_row w.rows r) _ λ row _.
          OnSome-option _ (get_matching_port_row ports w.rows row.name) _ _
            (OnSome-bind _ (get_row w.rows r) _ λ _ _. refl) λ _. refl

  del_old_port-find :
      (ports : List PortRow) (name : CString) (info : PortInfo) (w : World)
      → OnSome
          (λ w'.
            (key : CString)
            → shash_find w'.all_ports key
              ≡ (if strcmp_is_zero name key then none else shash_find w.all_ports key))
          (del_old_port ports name info w)
  unfolding del_old_port
  del_old_port-find ports name info w =
      OnSome-bind _ (for_each (release_row ports name) info.interfaces w) _ λ w' e key.
        let same : w'.all_ports ≡ w.all_ports =
          OnSome-some _ _
            (for_each-keeps (λ w. w.all_ports) (release_row ports name)
              (release_row-keeps ports name) info.interfaces w)
            e in
        rw same (find-delete w.all_ports name key)

  -- The rest of the cache is as it was, but that a name has gone.
  abbrev pub HasLost : CString → World → World → Type 0
  HasLost name w w' =
      (key : CString)
      → shash_find w'.all_ports key
        ≡ (if strcmp_is_zero name key then none else shash_find w.all_ports key)

  -- What the loop over the cached ports may come to: with every port in the Port table nothing is
  -- done; else the first port that is not there is taken out, and the function ends.
  abbrev pub IsDeletion : List PortRow → World → Bool × Bool × World → Type 0
  IsDeletion ports w (ends, rc, w') =
      ((ends ≡ false) × (rc ≡ false) × (w' ≡ w) × ArePresent ports w.all_ports)
      ⊎ ((before : Shash PortInfo) × (name : CString) × (info : PortInfo) × (after : Shash PortInfo)
          × (w.all_ports ≡ before ++ (name, info) ∷ after)
          × ArePresent ports before
          × (has_row ports name ≡ false)
          × (ends ≡ true)
          × (rc ≡ true)
          × HasLost name w w')

  -- A fault has to come from an interface of a cached port whose row is gone.
  abbrev pub IsOutcome : List PortRow → World → Option (Bool × Bool × World) → Type 0
  IsOutcome ports w none = ¬ AllHaveRows w.rows w.all_ports
  IsOutcome ports w (some result) = IsDeletion ports w result

  IsOutcome-OnSome :
      (ports : List PortRow) (w : World) (result : Option (Bool × Bool × World))
      → (AllHaveRows w.rows w.all_ports → is_some result ≡ true)
      → OnSome (IsDeletion ports w) result
      → IsOutcome ports w result
  IsOutcome-OnSome ports w none total h = λ rows. cc (total rows)
  IsOutcome-OnSome ports w (some result) total h = h

  is_some-then :
      {A B : Type 0} (o : Option A) (f : A → B)
      → is_some o ≡ true
      → is_some (o >>= λ x. some (f x)) ≡ true
  is_some-then none f h = h
  is_some-then (some x) f h = refl

  delete_first_total :
      (feed : Feed) (w : World)
      → AllHaveRows w.rows w.all_ports
      → is_some (delete_first feed w) ≡ true
  unfolding delete_first
  delete_first_total feed w rows =
      elim (Option-cases (first_deleted (collect_ports feed.ports []) w.all_ports)) [
        | inl n ↦ rw (delete_first, n) refl
        | inr ((name, info), h) ↦
            let (before, after, split, there, gone) =
              first_deleted-some feed.ports w.all_ports name info h in
            rw (delete_first, h)
              (is_some-then (del_old_port feed.ports name info w) (λ w'. (true, true, w'))
                (del_old_port_total feed.ports name info w (
                  AllHaveRows-at w.rows before name info after
                    (subst (AllHaveRows w.rows) split rows))))
      ]

  deletion : (feed : Feed) (w : World) → OnSome (IsDeletion feed.ports w) (delete_first feed w)
  unfolding delete_first
  deletion feed w =
      let present = collect_ports feed.ports [] in
      elim (Option-cases (first_deleted present w.all_ports)) [
        | inl n ↦
            rw (delete_first, n)
              (inl (refl, refl, refl, first_deleted-none feed.ports w.all_ports n))
        | inr ((name, info), h) ↦
            let (before, after, split, there, gone) =
              first_deleted-some feed.ports w.all_ports name info h in
            rw (delete_first, h)
              (OnSome-bind _ (del_old_port feed.ports name info w) _ λ w' e.
                let lost =
                  OnSome-some (HasLost name w) _ (del_old_port-find feed.ports name info w) e in
                inr (before, name, info, after, split, there, gone, refl, refl, lost))
      ]

  -- Whatever the Port table and the cached ports are: the loop faults only if an interface of a
  -- cached port has no row. If it does not fault, it does nothing where every cached port has a row in
  -- the Port table; else it takes the first cached port without one out of the cache and no other, also
  -- if more of them have none, and says that the function ends.
  pub delete_first-IsDeletion :
      (feed : Feed) (w : World) → IsOutcome feed.ports w (delete_first feed w)
  delete_first-IsDeletion feed w =
      IsOutcome-OnSome feed.ports w (delete_first feed w) (delete_first_total feed w)
        (deletion feed w)

  config_dangling :
      (heap : Heap) (row : Ifrow) (intf : Iface) (b : ℕ)
      → intf.split_parent ≡ some b
      → heap b ≡ none
      → is_virtual intf ≡ false
      → intf.split_children ≡ none
      → set_interface_config heap row intf ≡ none
  unfolding set_interface_config calc_intf_op_state_n_reason calc_state
  config_dangling heap row intf b lane freed hardware alone =
      rw
        (
          set_interface_config,
          prepared-eq intf,
          calc_intf_op_state_n_reason,
          lane,
          freed,
          calc_state,
          hardware,
          alone,
        )
        refl

  -- A lane is left with a pointer to its parent when the parent is freed: to configure it is a fault.
  pub del_old_interface-dangling :
      (name : CString) (r a b : ℕ) (w : World) (intf : Iface)
      → w.heap a ≡ some intf
      → intf.split_parent ≡ some b
      → (b == a) ≡ false
      → is_virtual intf ≡ false
      → intf.split_children ≡ none
      → configure r a (del_old_interface name b w) ≡ none
  unfolding configure del_old_interface
  del_old_interface-dangling name r a b w intf cell lane differ hardware alone =
      let cell' : (del_old_interface name b w).heap a ≡ some intf = ground arith in
      let freed : (del_old_interface name b w).heap b ≡ none = ground arith in
      elim (Option-cases (get_row w.rows r)) [
        | inl e ↦ rw (configure, e) refl
        | inr (row, e) ↦
            rw (configure, e, ◌>>=◌, cell', config_dangling _ row intf b lane freed hardware alone)
              refl
      ]

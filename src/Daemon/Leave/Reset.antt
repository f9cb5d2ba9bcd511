-- ===== src/Daemon/Leave/Reset.antt =====
-- A port of src/intfd_ovsdb_if.c that has lost all its interfaces: remove_interface_from_port, for
-- interfaces that are in no other port.
use ops_intfd.Prelude.{
  ℕ, ◌≡◌, refl, sym, ap, ◌∙◌, subst, Bool, true, false, Option, none, some, List, [], ◌∷◌, ◌==◌,
  ◌>>=◌, if◌then◌else◌, Bool-cases, inl, inr, All, All-map, ==_iff, arith,
}
use ops_intfd.CString.{CString, strcmp_is_zero}
use ops_intfd.Smap.{smap_get}
use ops_intfd.Smap.Laws.{get-init, get-add}
use ops_intfd.Schema.{Idl, PortAdmin, HwConfigKey}
use ops_intfd.Database.{Ifrow}
use ops_intfd.Interface.{Iface}
use ops_intfd.Config.State.{Heap}
use ops_intfd.Daemon.{
  shash_find, get_row, store_row, store_iface, PortRow, PortInfo, World, for_each, update_heap,
}
use ops_intfd.Daemon.Ports.{
  disabled, leave_port, empty_port, drop_lost, occurs, remove_interface_from_port,
}
use ops_intfd.Daemon.Leave.{
  get-put_row, InNoPort, IsOrphan, matching-none, leave_lem, IsLowered, IsDown, Stage, Stage-trans,
  Stage-row, Stage-cell, Stage-IsOrphan, IsDown-IsLowered,
}

module _ ⦃idl : Idl⦄ where
  -- The port of the interface of the row is down afterwards.
  abbrev IsDownAt : World → ℕ → World → Type 0
  IsDownAt w r w' =
      (row : Ifrow) (a : ℕ)
      → get_row w.rows r ≡ some row
      → shash_find w.all_interfaces row.name ≡ some a
      → IsDown (w'.heap a)

  -- The body disables an interface that is in no port.
  abbrev Resets : List PortRow → (ℕ → World → Option World) → Type 0
  Resets ports body =
      (r : ℕ) (w : World)
      → IsOrphan ports w r
      → (w' : World) × (body r w ≡ some w') × Stage (λ s. r == s) w w' × IsDownAt w r w'

  lowered :
      (a b : ℕ) (heap : Heap) (intf : Iface)
      → heap a ≡ some intf
      → IsLowered
          (heap b)
          (update_heap heap a (some (record intf { port_admin = PortAdmin.down })) b)
  lowered a b heap intf cell = elim (Bool-cases (a == b)) [
    | inl e ↦ inr (rw (e, sym (ap heap ((==_iff a b).0 e)) ∙ cell) refl)
    | inr e ↦ inl (rw e refl)
  ]

  leave-Stage :
      (r a : ℕ) (w : World) (row : Ifrow) (intf : Iface)
      → get_row w.rows r ≡ some row
      → w.heap a ≡ some intf
      → Stage
          (λ s. r == s)
          w
          (store_row r
            (disabled row)
            (store_iface a (record intf { port_admin = PortAdmin.down }) w))
  leave-Stage r a w row intf found cell = record {
    rows_eq = λ s. ground (arith, get-put_row w.rows r s (disabled row), found, ==_iff r s);
    cached = refl;
    cells = λ b. lowered a b w.heap intf cell;
  }

  leave-Resets :
      (ports : List PortRow) (r a : ℕ) (w : World) (row : Ifrow) (intf : Iface)
      → get_row w.rows r ≡ some row
      → shash_find w.all_interfaces row.name ≡ some a
      → w.heap a ≡ some intf
      → InNoPort ports w.rows row.name
      → (w' : World) × (leave_port ports r a w ≡ some w')
        × Stage (λ s. r == s) w w'
        × IsDownAt w r w'
  leave-Resets ports r a w row intf found cached cell alone = (
    store_row r (disabled row) (store_iface a (record intf { port_admin = PortAdmin.down }) w),
    leave_lem ports r a w row intf found cell (matching-none ports w.rows row.name alone),
    leave-Stage r a w row intf found cell,
    λ row' a' found' cached'. let same : a ≡ a' = cc in rw ((==_iff a a').1 same) refl,
  )

  empty_port-eq :
      (ports : List PortRow) (r a : ℕ) (w : World) (row : Ifrow)
      → get_row w.rows r ≡ some row
      → shash_find w.all_interfaces row.name ≡ some a
      → empty_port ports r w ≡ leave_port ports r a w
  unfolding empty_port
  empty_port-eq ports r a w row found cached = rw (empty_port, found, ◌>>=◌, cached) refl

  drop_lost-eq :
      (ports : List PortRow) (r a : ℕ) (w : World) (row : Ifrow)
      → get_row w.rows r ≡ some row
      → shash_find w.all_interfaces row.name ≡ some a
      → drop_lost ports [] r w ≡ leave_port ports r a w
  unfolding drop_lost
  drop_lost-eq ports r a w row found cached =
      rw (drop_lost, found, ◌>>=◌, cached) (rw (leave_port, found) refl)

  empty_port-Resets : (ports : List PortRow) → Resets ports (empty_port ports)
  empty_port-Resets ports r w (row, a, intf, found, cached, cell, alone) =
      let (w', left, stage, lower) = leave-Resets ports r a w row intf found cached cell alone in
      (w', empty_port-eq ports r a w row found cached ∙ left, stage, lower)

  drop_lost-Resets : (ports : List PortRow) → Resets ports (drop_lost ports [])
  drop_lost-Resets ports r w (row, a, intf, found, cached, cell, alone) =
      let (w', left, stage, lower) = leave-Resets ports r a w row intf found cached cell alone in
      (w', drop_lost-eq ports r a w row found cached ∙ left, stage, lower)

  for_each-Resets :
      (ports : List PortRow) (body : ℕ → World → Option World)
      → Resets ports body
      → (rs : List ℕ) (w : World) → All (IsOrphan ports w) rs
      → (w' : World) × (for_each body rs w ≡ some w')
        × Stage (λ s. occurs s rs) w w'
        × All (λ r. IsDownAt w r w') rs
  unfolding for_each
  for_each-Resets ports body resets [] w h =
      (w, refl, record { rows_eq = λ s. refl; cached = refl; cells = λ a. inl refl }, tt)
  for_each-Resets ports body resets (r ∷ rs) w (h, hs) =
      let (w1, done, first, lower) = resets r w h in
      let left = All-map rs (λ q o. Stage-IsOrphan (λ s. r == s) w w1 ports q first o) hs in
      let (w2, rest, others, lowers) = for_each-Resets ports body resets rs w1 left in
      (
        w2,
        rw (for_each, done) rest,
        Stage-trans (λ s. r == s) (λ s. occurs s rs) (λ s. occurs s (r ∷ rs)) w w1 w2
            (λ s. ground arith) first others,
        (
          λ row a found cached.
              IsDown-IsLowered (w1.heap a) (w2.heap a) (others.cells a) (lower row a found cached),
          All-map rs
              (λ q d row a found cached.
                let (row', found', same) = Stage-row (λ s. r == s) w w1 q row first found in
                d row' a found' (
                  ap (λ c. shash_find c row'.name) first.cached
                  ∙ ap (λ n. shash_find w.all_interfaces n) same
                  ∙ cached))
              lowers,
        ),
      )

  -- The row is the other but for its column hw_intf_config, which says { enable = false } and nothing
  -- more.
  abbrev pub IsDisabled : Ifrow → Ifrow → Type 0
  IsDisabled row row' =
      (row' ≡ record row { hw_intf_config = row'.hw_intf_config })
      × ((key : CString)
          → smap_get row'.hw_intf_config key ≡ (
              if strcmp_is_zero (idl.hw_config_key HwConfigKey.enable) key
              then some idl.enable_false
              else none))

  disabled-IsDisabled : (row : Ifrow) → IsDisabled row (disabled row)
  disabled-IsDisabled row = (
    refl,
    λ key.
        get-add [] (idl.hw_config_key HwConfigKey.enable) key idl.enable_false
          (get-init (idl.hw_config_key HwConfigKey.enable))
        ∙ rw (get-init key) refl,
  )

  -- The interface of the row is disabled, and its port counts as down.
  abbrev pub IsReset : World → World → ℕ → Type 0
  IsReset w w' r =
      (row : Ifrow) × (row' : Ifrow) × (a : ℕ) × (intf : Iface) × (get_row w.rows r ≡ some row)
      × (get_row w'.rows r ≡ some row')
      × IsDisabled row row'
      × (shash_find w.all_interfaces row.name ≡ some a)
      × (w'.heap a ≡ some intf)
      × (intf.port_admin ≡ PortAdmin.down)

  All-IsReset :
      (ports : List PortRow) (w w1 w2 : World) (test : ℕ → Bool) (rs : List ℕ)
      → Stage test w w2
      → ((a : ℕ) → IsLowered (w1.heap a) (w2.heap a))
      → All (IsOrphan ports w) rs
      → All (λ r. IsDownAt w r w1) rs
      → ((r : ℕ) → occurs r rs ≡ true → test r ≡ true)
      → All (IsReset w w2) rs
  All-IsReset ports w w1 w2 test [] stage cells orphans downs inside = tt
  All-IsReset ports w w1 w2 test (r ∷ rs) stage cells
        ((row, a, intf, found, cached, cell, alone), os) (d, ds) inside =
      let (intf', cell') = Stage-cell test w w2 a intf stage cell in
      let lower = IsDown-IsLowered (w1.heap a) (w2.heap a) (cells a) (d row a found cached) in
      let passes = inside r (rw ((==_iff r r).1 refl) refl) in
      (
        (
          row,
          disabled row,
          a,
          intf',
          found,
          stage.rows_eq r ∙ rw (passes, found) refl,
          disabled-IsDisabled row,
          cached,
          cell',
          subst IsDown cell' lower,
        ),
        All-IsReset ports w w1 w2 test rs stage cells os ds (λ q h. inside q (ground arith)),
      )

  remove-eq :
      (ports : List PortRow) (port : PortRow) (info : PortInfo) (w w1 w2 : World)
      → port.interfaces ≡ []
      → shash_find w.all_ports port.name ≡ some info
      → for_each (empty_port ports) info.interfaces w ≡ some w1
      → for_each (drop_lost ports []) info.interfaces w1 ≡ some w2
      → remove_interface_from_port ports port w ≡ some (true, w2)
  unfolding remove_interface_from_port
  remove-eq ports port info w w1 w2 none_left known first second =
      rw (remove_interface_from_port, known, none_left, first, ◌>>=◌, second) refl

  -- For a port that has no interface any more, of whose cached interfaces each has a row, is cached
  -- and allocated and is, by its name, in no port of the Port table: the operation does not fault.
  -- Afterwards the column hw_intf_config of the row of each of them is { enable = false } and the rest
  -- of the row is as it was, each of them counts its port as down, and no other row has changed.
  pub remove_interface_from_port-IsReset :
      (ports : List PortRow) (port : PortRow) (info : PortInfo) (w : World)
      → port.interfaces ≡ []
      → shash_find w.all_ports port.name ≡ some info
      → All (IsOrphan ports w) info.interfaces
      → (w' : World) × (remove_interface_from_port ports port w ≡ some (true, w'))
        × All (IsReset w w') info.interfaces
        × ((s : ℕ) → occurs s info.interfaces ≡ false → get_row w'.rows s ≡ get_row w.rows s)
  remove_interface_from_port-IsReset ports port info w none_left known orphans =
      let rs = info.interfaces in
      let test = λ (s : ℕ). occurs s rs in
      let (w1, first, stage1, downs) =
        for_each-Resets ports (empty_port ports) (empty_port-Resets ports) rs w orphans in
      let still = All-map rs (λ q o. Stage-IsOrphan test w w1 ports q stage1 o) orphans in
      let (w2, second, stage2, _) =
        for_each-Resets ports (drop_lost ports []) (drop_lost-Resets ports) rs w1 still in
      let stage = Stage-trans test test test w w1 w2 (λ s. ground arith) stage1 stage2 in
      (
        w2,
        remove-eq ports port info w w1 w2 none_left known first second,
        All-IsReset ports w w1 w2 test rs stage stage2.cells orphans downs (λ r h. h),
        λ s outside. stage.rows_eq s ∙ rw outside refl,
      )

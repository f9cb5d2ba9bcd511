-- ===== src/Daemon/Sync/Total.antt =====
-- The first part of intfd_reconfigure of src/intfd_ovsdb_if.c does not fault on rows that the parsers
-- accept.
use ops_intfd.Prelude.{
  ℕ, ℤ, ◌≡◌, refl, sym, true, inl, inr, some, Option-cases, List, [], ◌∷◌, is_some, is_some-eq, All,
  subst, OnSome-some, arith,
}
use ops_intfd.CString.{CString}
use ops_intfd.Schema.{Idl}
use ops_intfd.Database.{Ifrow}
use ops_intfd.Daemon.{Shash, shash_find, Rows, get_row, PortRow, Feed, World, for_each}
use ops_intfd.Daemon.Interfaces.{collect_rows, add_missing, del_interfaces}
use ops_intfd.Daemon.Run.{sync_interfaces}
use ops_intfd.Daemon.Cache.{IsWellFormed, del_interfaces-IsWellFormed}
use ops_intfd.Daemon.Sync.{
  IsTable, IsSourced, IsParsed, IsExtended, IsSynced, collect_rows-IsSourced, new_iface-is_some,
  add_missing-new_iface, add_missing-IsExtended, sync_interfaces-IsSynced,
}

module _ ⦃idl : Idl⦄ where
  -- Every row has columns that the parsers accept.
  abbrev pub AllParsed : ℤ → Rows → Type 0
  AllParsed base_mtu = All (λ (e : ℕ × Ifrow). IsParsed base_mtu e.1)

  get_row-IsParsed :
      (base_mtu : ℤ) (rows : Rows) (r : ℕ) (row : Ifrow)
      → AllParsed base_mtu rows
      → get_row rows r ≡ some row
      → IsParsed base_mtu row
  unfolding get_row
  get_row-IsParsed base_mtu [] r row h e = absurd (cc e)
  get_row-IsParsed base_mtu ((s, other) ∷ rows) r row (h, hs) e =
      ground (arith, get_row-IsParsed base_mtu rows r row hs)

  add_row_total :
      (ports : List PortRow) (row : Ifrow) (r : ℕ) (w : World)
      → get_row w.rows r ≡ some row
      → AllParsed w.base_mtu w.rows
      → is_some (add_missing ports (row.name, r) w) ≡ true
  unfolding add_missing
  add_row_total ports row r w found h = elim (Option-cases (shash_find w.all_interfaces row.name)) [
    | inl e ↦
        let parsed = get_row-IsParsed w.base_mtu w.rows r row h found in
        let (intf, e') = is_some-eq _ (new_iface-is_some w.base_mtu ports w.rows row parsed) in
        rw (add_missing-new_iface ports row r w found e, e') refl
    | inr (a, e) ↦ rw (e, add_missing) refl
  ]

  add_missing_total :
      (ports : List PortRow) (name : CString) (r : ℕ) (w : World)
      → IsSourced w.rows (name, r)
      → AllParsed w.base_mtu w.rows
      → is_some (add_missing ports (name, r) w) ≡ true
  add_missing_total ports name r w (row, found, same) h =
      subst (λ n. is_some (add_missing ports (n, r) w) ≡ true) same
        (add_row_total ports row r w found h)

  for_each_total :
      (ports : List PortRow) (entries : Shash ℕ) (w : World)
      → All (IsSourced w.rows) entries
      → AllParsed w.base_mtu w.rows
      → IsWellFormed w
      → (w' : World) × (for_each (add_missing ports) entries w ≡ some w')
  unfolding for_each
  for_each_total ports [] w h p ok = (w, refl)
  for_each_total ports ((name, r) ∷ entries) w (h, hs) p ok =
      let (w1, e) =
        is_some-eq (add_missing ports (name, r) w) (add_missing_total ports name r w h p) in
      let one = OnSome-some (IsExtended name w) _ (add_missing-IsExtended ports name r w h ok) e in
      let (w2, e2) =
        for_each_total ports entries w1
          (subst (λ rows. All (IsSourced rows) entries) (sym one.1) hs) (rw (one.1, one.2) p)
          one.0 in
      (w2, rw e e2)

  -- From a well-formed memory, where the rows have different numbers and columns that the parsers
  -- accept: making the cache that of the table does not fault, and its result is well-formed with
  -- exactly the names of the table.
  pub sync_interfaces_total :
      (feed : Feed) (w : World)
      → IsTable w.rows
      → AllParsed w.base_mtu w.rows
      → IsWellFormed w
      → (w' : World) × (sync_interfaces feed w ≡ some w') × IsWellFormed w' × IsSynced w.rows w'
  unfolding sync_interfaces
  sync_interfaces_total feed w table p ok =
      let present = collect_rows w.rows [] in
      let w1 = del_interfaces present w.all_interfaces w in
      let (ok1, rows1, mtu1, found1) = del_interfaces-IsWellFormed present w ok in
      let sourced = collect_rows-IsSourced w.rows w.rows [] table tt in
      let (w', e) =
        for_each_total feed.ports present w1
          (subst (λ rows. All (IsSourced rows) present) (sym rows1) sourced) (rw (rows1, mtu1) p)
          ok1 in
      let (ok', rows', mtu', found') =
        OnSome-some _ (sync_interfaces feed w) (sync_interfaces-IsSynced feed w table ok) e in
      (w', e, ok', found')

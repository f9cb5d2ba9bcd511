-- ===== src/Daemon/Sync.antt =====
-- The first part of intfd_reconfigure of src/intfd_ovsdb_if.c, which makes the cache that of the
-- Interface table: what it leaves, and when it does not fault.
pub mod Total
use ops_intfd.Prelude.{
  ℕ, ℤ, pos, ◌≡◌, refl, sym, ap, ◌∙◌, Bool, true, false, ◌||◌, ◌&&◌, not, inl, inr, Option, none,
  some, Option-cases, List, [], ◌∷◌, ◌++◌, ◌>>=◌, if◌then◌else◌, is_some, All, subst, OnSome,
  OnSome-bind, OnSome-map, OnSome-some, arith,
}
use ops_intfd.CString.{CString, strcmp_is_zero}
use ops_intfd.CString.Equality.{strcmp_iff}
use ops_intfd.Schema.{Idl}
use ops_intfd.Database.{Ifrow}
use ops_intfd.Interface.{Iface}
use ops_intfd.Parse.UserCfg.{parse_user_cfg}
use ops_intfd.Daemon.{Shash, shash_find, shash_add, Rows, get_row, PortRow, Feed, World, for_each}
use ops_intfd.Daemon.Interfaces.{
  collect_rows, new_iface, add_new_interface, add_missing, del_interfaces, zeroed_user_cfg,
}
use ops_intfd.Daemon.Run.{sync_interfaces}
use ops_intfd.Daemon.Maps.{find-add}
use ops_intfd.Daemon.Cache.{
  IsWellFormed, with_iface-IsWellFormed, with_iface, del_interfaces-IsWellFormed,
}

-- The numbers of the rows differ: each row is the one that its number finds.
abbrev pub IsTable : Rows → Type 0
IsTable rows = All (λ (e : ℕ × Ifrow). get_row rows e.0 ≡ some e.1) rows

-- Some row of the table has the name.
unfoldable pub has_name : Rows → CString → Bool
has_name [] name = false
has_name ((_, row) ∷ rows) name = strcmp_is_zero row.name name || has_name rows name

-- The entry is the name of a row, with the row's number.
abbrev pub IsSourced : Rows → CString × ℕ → Type 0
IsSourced rows (name, r) = (row : Ifrow) × (get_row rows r ≡ some row) × (row.name ≡ name)

All-add {ℓ} :
    (P : CString × ℕ → Type ℓ) (c : Shash ℕ) (name : CString) (a : ℕ)
    → All P c
    → P (name, a)
    → All P (shash_add c name a)
All-add P [] name a h p = (p, tt)
All-add P (e ∷ c) name a (h, hs) p = (h, All-add P c name a hs p)

pub collect_rows-IsSourced :
    (rows rest : Rows) (found : Shash ℕ)
    → All (λ (e : ℕ × Ifrow). get_row rows e.0 ≡ some e.1) rest
    → All (IsSourced rows) found
    → All (IsSourced rows) (collect_rows rest found)
unfolding collect_rows
collect_rows-IsSourced rows [] found t h = h
collect_rows-IsSourced rows ((r, row) ∷ rest) found (t, ts) h =
    elim (Option-cases (shash_find found row.name)) [
      | inl e ↦
          rw (e, collect_rows)
            (collect_rows-IsSourced rows rest (shash_add found row.name r) ts
              (All-add _ found row.name r h (row, t, refl)))
      | inr (a, e) ↦ rw (e, collect_rows) (collect_rows-IsSourced rows rest found ts h)
    ]

collect_rows-has_name :
    (rows : Rows) (found : Shash ℕ) (key : CString)
    → is_some (shash_find (collect_rows rows found) key)
      ≡ (is_some (shash_find found key) || has_name rows key)
unfolding collect_rows has_name
collect_rows-has_name [] found key = ground arith
collect_rows-has_name ((r, row) ∷ rows) found key =
    elim (Option-cases (shash_find found row.name)) [
      | inl e ↦
          rw (e, collect_rows)
            (ground (
              arith,
              collect_rows-has_name rows (shash_add found row.name r) key,
              find-add found row.name key r e,
            ))
      | inr (a, e) ↦
          rw (e, collect_rows)
            (ground (arith, collect_rows-has_name rows found key, strcmp_iff row.name key))
    ]

module _ ⦃idl : Idl⦄ where
  -- What an addition for an entry leaves.
  abbrev pub IsExtended : CString → World → World → Type 0
  IsExtended name w w' =
      IsWellFormed w'
      × (w'.rows ≡ w.rows)
      × (w'.base_mtu ≡ w.base_mtu)
      × ((key : CString)
          → is_some (shash_find w'.all_interfaces key)
            ≡ (strcmp_is_zero name key || is_some (shash_find w.all_interfaces key)))

  -- The columns of the row are those that the parsers accept.
  abbrev pub IsParsed : ℤ → Ifrow → Type 0
  IsParsed base_mtu row =
      is_some (parse_user_cfg base_mtu zeroed_user_cfg row.user_config row.hw_intf_info) ≡ true

  pub new_iface-is_some :
      (base_mtu : ℤ) (ports : List PortRow) (rows : Rows) (row : Ifrow)
      → IsParsed base_mtu row
      → is_some (new_iface base_mtu ports rows row) ≡ true
  unfolding new_iface
  new_iface-is_some base_mtu ports rows row h = ground arith

  with_iface-IsExtended :
      (name : CString) (intf : Iface) (w : World)
      → shash_find w.all_interfaces name ≡ none
      → IsWellFormed w
      → IsExtended name w (with_iface name intf w)
  with_iface-IsExtended name intf w e ok = (
    with_iface-IsWellFormed name intf w e ok,
    refl,
    refl,
    λ key. ground (arith, find-add w.all_interfaces name key w.next e),
  )

  pub add_missing-new_iface :
      (ports : List PortRow) (row : Ifrow) (r : ℕ) (w : World)
      → get_row w.rows r ≡ some row
      → shash_find w.all_interfaces row.name ≡ none
      → add_missing ports (row.name, r) w
        ≡ (new_iface w.base_mtu ports w.rows row >>= λ intf. some (with_iface row.name intf w))
  unfolding add_missing add_new_interface
  add_missing-new_iface ports row r w found e = ground arith

  add_row :
      (ports : List PortRow) (row : Ifrow) (r : ℕ) (w : World)
      → get_row w.rows r ≡ some row
      → IsWellFormed w
      → OnSome (IsExtended row.name w) (add_missing ports (row.name, r) w)
  unfolding add_missing
  add_row ports row r w found ok = elim (Option-cases (shash_find w.all_interfaces row.name)) [
    | inl e ↦ rw (add_missing-new_iface ports row r w found e) (
        OnSome-bind _ (new_iface w.base_mtu ports w.rows row) _
          λ intf _. with_iface-IsExtended row.name intf w e ok)
    | inr (a, e) ↦
        rw (e, add_missing) (ok, refl, refl, λ key. ground (arith, strcmp_iff row.name key))
  ]

  pub add_missing-IsExtended :
      (ports : List PortRow) (name : CString) (r : ℕ) (w : World)
      → IsSourced w.rows (name, r)
      → IsWellFormed w
      → OnSome (IsExtended name w) (add_missing ports (name, r) w)
  add_missing-IsExtended ports name r w (row, found, same) ok =
      subst (λ n. OnSome (IsExtended n w) (add_missing ports (n, r) w)) same
        (add_row ports row r w found ok)

  -- What the additions for the entries leave.
  abbrev IsFilled : Shash ℕ → World → World → Type 0
  IsFilled entries w w' =
      IsWellFormed w'
      × (w'.rows ≡ w.rows)
      × (w'.base_mtu ≡ w.base_mtu)
      × ((key : CString)
          → is_some (shash_find w'.all_interfaces key)
            ≡ (is_some (shash_find entries key) || is_some (shash_find w.all_interfaces key)))

  IsExtended-IsFilled :
      (name : CString) (r : ℕ) (entries : Shash ℕ) (w w1 w2 : World)
      → IsExtended name w w1
      → IsFilled entries w1 w2
      → IsFilled ((name, r) ∷ entries) w w2
  unfolding shash_find
  IsExtended-IsFilled name r entries w w1 w2 (ok1, rows1, mtu1, found1) (ok2, rows2, mtu2, found2) =
      (ok2, rows2 ∙ rows1, mtu2 ∙ mtu1, λ key. ground (arith, found1 key, found2 key))

  for_each-IsFilled :
      (ports : List PortRow) (entries : Shash ℕ) (w : World)
      → All (IsSourced w.rows) entries
      → IsWellFormed w
      → OnSome (IsFilled entries w) (for_each (add_missing ports) entries w)
  unfolding for_each shash_find
  for_each-IsFilled ports [] w h ok = (ok, refl, refl, λ key. refl)
  for_each-IsFilled ports ((name, r) ∷ entries) w (h, hs) ok =
      OnSome-bind _ (add_missing ports (name, r) w) _ λ w1 e.
        let one =
          OnSome-some (IsExtended name w) _ (add_missing-IsExtended ports name r w h ok) e in
        OnSome-map _ (λ w2. IsExtended-IsFilled name r entries w w1 w2 one)
          (for_each-IsFilled ports entries w1
            (subst (λ rows. All (IsSourced rows) entries) (sym one.1) hs) one.0)

  -- The cache holds exactly the names of the table.
  abbrev pub IsSynced : Rows → World → Type 0
  IsSynced rows w = (key : CString) → is_some (shash_find w.all_interfaces key) ≡ has_name rows key

  -- From a well-formed memory, where the rows have different numbers: once the cache has been made
  -- that of the table it is well-formed, and there is an interface of a name in it exactly if the
  -- table has a row of the name; the table is as it was.
  pub sync_interfaces-IsSynced :
      (feed : Feed) (w : World)
      → IsTable w.rows
      → IsWellFormed w
      → OnSome
          (λ w'.
            IsWellFormed w' × (w'.rows ≡ w.rows) × (w'.base_mtu ≡ w.base_mtu) × IsSynced w.rows w')
          (sync_interfaces feed w)
  unfolding sync_interfaces shash_find
  sync_interfaces-IsSynced feed w table ok =
      let present = collect_rows w.rows [] in
      let (ok1, rows1, mtu1, found1) = del_interfaces-IsWellFormed present w ok in
      let sourced = collect_rows-IsSourced w.rows w.rows [] table tt in
      let w1 = del_interfaces present w.all_interfaces w in
      OnSome-map (for_each (add_missing feed.ports) present w1)
        (λ w2 (ok2, rows2, mtu2, found2). (
          ok2,
          rows2 ∙ rows1,
          mtu2 ∙ mtu1,
          λ key. ground (arith, found1 key, found2 key, collect_rows-has_name w.rows [] key),
        ))
        (for_each-IsFilled feed.ports present w1
          (subst (λ rows. All (IsSourced rows) present) (sym rows1) sourced) ok1)

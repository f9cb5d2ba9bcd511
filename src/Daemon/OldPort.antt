-- ===== src/Daemon/OldPort.antt =====
-- The cached ports of src/intfd_ovsdb_if.c that have no row in the Port table: which is the first, and
-- when del_old_port does not fault on it.
use ops_intfd.Prelude.{
  ℕ, ◌≡◌, refl, ◌∙◌, true, Option, some, List, [], ◌∷◌, ◌++◌, ◌==◌, ◌&&◌, ◌>>=◌, if◌then◌else◌,
  ◌||◌, false, Bool, none, is_some, Option-cases, inl, inr, All, All-map, ap, arith,
}
use ops_intfd.CString.{CString, strcmp_is_zero}
use ops_intfd.CString.Equality.{strcmp_iff}
use ops_intfd.Schema.{Idl}
use ops_intfd.Database.{Ifrow}
use ops_intfd.Daemon.{
  Shash, shash_find, shash_add, Rows, get_row, store_row, PortRow, PortInfo, World, for_each,
}
use ops_intfd.Daemon.Leave.{get-put_row}
use ops_intfd.Daemon.PortChanges.{collect_ports, first_deleted}
use ops_intfd.Daemon.Maps.{find-add}
use ops_intfd.Daemon.Ports.{
  get_matching_interface_row, get_matching_port_row, disabled, reset_row, release_row, del_old_port,
}

-- A row of the Port table has the name.
abbrev pub has_row : List PortRow → CString → Bool
has_row [] name = false
has_row (port ∷ ports) name = strcmp_is_zero port.name name || has_row ports name

abbrev pub ArePresent : List PortRow → Shash PortInfo → Type 0
ArePresent ports = All (λ e. has_row ports e.0 ≡ true)

find-collect :
    (ports : List PortRow) (found : Shash PortRow) (name : CString)
    → is_some (shash_find (collect_ports ports found) name)
      ≡ (is_some (shash_find found name) || has_row ports name)
unfolding collect_ports
find-collect [] found name = ground arith
find-collect (port ∷ ports) found name = elim (Option-cases (shash_find found port.name)) [
  | inl n ↦
      rw (collect_ports, n)
        (ground (
          arith,
          find-collect ports (shash_add found port.name port) name,
          find-add found port.name name port n,
        ))
  | inr (old, s) ↦
      rw (collect_ports, s)
        (ground (arith, find-collect ports found name, strcmp_iff port.name name))
]

has_row-collect :
    (ports : List PortRow) (name : CString)
    → is_some (shash_find (collect_ports ports []) name) ≡ has_row ports name
unfolding shash_find
has_row-collect ports name = find-collect ports [] name

pub first_deleted-none :
    (ports : List PortRow) (cached : Shash PortInfo)
    → first_deleted (collect_ports ports []) cached ≡ none
    → ArePresent ports cached
unfolding first_deleted
first_deleted-none ports [] h = tt
first_deleted-none ports ((name, info) ∷ rest) h =
    (ground (arith, has_row-collect ports name), first_deleted-none ports rest (ground arith))

pub first_deleted-some :
    (ports : List PortRow) (cached : Shash PortInfo) (name : CString) (info : PortInfo)
    → first_deleted (collect_ports ports []) cached ≡ some (name, info)
    → (before : Shash PortInfo) × (after : Shash PortInfo) × (cached
        ≡ before ++ (name, info) ∷ after)
      × ArePresent ports before
      × (has_row ports name ≡ false)
unfolding first_deleted
first_deleted-some ports [] name info h = absurd (cc h)
first_deleted-some ports ((other, old) ∷ rest) name info h =
    elim (Option-cases (shash_find (collect_ports ports []) other)) [
      | inl n ↦
          let same : ◌≡◌ {A = CString × PortInfo} (other, old) (name, info) = ground arith in
          ([], rest, ap (λ e. e ∷ rest) same, tt, ground (arith, has_row-collect ports other))
      | inr (row, s) ↦
          let (before, after, split, there, gone) =
            first_deleted-some ports rest name info (ground arith) in
          (
            (other, old) ∷ before,
            after,
            ap (λ es. (other, old) ∷ es) split,
            (ground (arith, has_row-collect ports other), there),
            gone,
          )
    ]

-- The numbers are those of rows.
abbrev pub HaveRows : Rows → List ℕ → Type 0
HaveRows rows = All (λ r. is_some (get_row rows r) ≡ true)

-- Every interface of a cached port has a row.
abbrev pub AllHaveRows : Rows → Shash PortInfo → Type 0
AllHaveRows rows = All (λ e. HaveRows rows e.1.interfaces)

pub AllHaveRows-at :
    (rows : Rows) (before : Shash PortInfo) (name : CString) (info : PortInfo)
    (after : Shash PortInfo)
    → AllHaveRows rows (before ++ (name, info) ∷ after)
    → HaveRows rows info.interfaces
AllHaveRows-at rows [] name info after (h, _) = h
AllHaveRows-at rows (_ ∷ before) name info after (_, hs) =
    AllHaveRows-at rows before name info after hs

put_keeps :
    (r s : ℕ) (o : Option Ifrow) (row : Ifrow)
    → is_some (if r == s && is_some o then some row else o) ≡ is_some o
put_keeps r s o row = ground arith

module _ ⦃idl : Idl⦄ where
  -- It does not fault, and the same rows are there afterwards.
  abbrev IsRelease : World → Option World → Type 0
  IsRelease w result =
      (w' : World) × (result ≡ some w')
      × ((s : ℕ) → is_some (get_row w'.rows s) ≡ is_some (get_row w.rows s))

  release_row_total :
      (ports : List PortRow) (name : CString) (r : ℕ) (w : World)
      → is_some (get_row w.rows r) ≡ true
      → IsRelease w (release_row ports name r w)
  unfolding release_row reset_row
  release_row_total ports name r w h = elim (Option-cases (get_row w.rows r)) [
    | inl n ↦ absurd (ground arith)
    | inr (row, e) ↦ elim (Option-cases (get_matching_interface_row w.rows name)) [
      | inl alone ↦ (w, rw (release_row, alone) refl, λ s. refl)
      | inr (_, found) ↦ elim (Option-cases (get_matching_port_row ports w.rows row.name)) [
        | inl none_left ↦ (
          store_row r (disabled row) w,
          rw (release_row, found, e, ◌>>=◌, none_left, reset_row, e) refl,
          λ s.
              ap is_some (get-put_row w.rows r s (disabled row))
              ∙ put_keeps r s (get_row w.rows s) (disabled row),
        )
        | inr (_, other) ↦ (w, rw (release_row, found, e, ◌>>=◌, other) refl, λ s. refl)
      ]
    ]
  ]

  release_all_total :
      (ports : List PortRow) (name : CString) (rs : List ℕ) (w : World)
      → HaveRows w.rows rs
      → (w' : World) × (for_each (release_row ports name) rs w ≡ some w')
  unfolding for_each
  release_all_total ports name [] w h = (w, refl)
  release_all_total ports name (r ∷ rs) w (h, hs) =
      let (w1, first, same) = release_row_total ports name r w h in
      let (w2, others) = release_all_total ports name rs w1 (All-map rs (λ q k. same q ∙ k) hs) in
      (w2, rw (for_each, first, ◌>>=◌) others)

  -- Where each interface of the port has a row, the operation does not fault.
  pub del_old_port_total :
      (ports : List PortRow) (name : CString) (info : PortInfo) (w : World)
      → HaveRows w.rows info.interfaces
      → is_some (del_old_port ports name info w) ≡ true
  unfolding del_old_port
  del_old_port_total ports name info w h =
      let (w', e) = release_all_total ports name info.interfaces w h in
      rw (del_old_port, e, ◌>>=◌) refl

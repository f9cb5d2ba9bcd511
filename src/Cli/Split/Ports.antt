-- ===== src/Cli/Split/Ports.antt =====
-- What remove_port_and_references of src/cli/intf_vty.c leaves of the ports and of the interfaces.
use ops_intfd.Prelude.{
  All-map, ℕ, zero, suc, Bool, true, false, ◌&&◌, ◌||◌, not, List, [], ◌∷◌, ◌==◌, length,
  if◌then◌else◌, ◌≡◌, ==_iff, refl, sym, subst, inl, inr, Bool-cases, All, OnSome, OnSome-bind,
  OnSome-some, OnSome-option, OnSome-if, OnSome-bool, arith,
}
use ops_intfd.CString.{CString, strcmp_is_zero}
use ops_intfd.CString.Equality.{strcmp_iff, strcmp_refl}
use ops_intfd.Schema.{Idl}
use ops_intfd.Daemon.{get_row}
use ops_intfd.Cli.Split.{
  PortRow, Db, Utils, without, delete_port, set_interfaces, at, ovsrec_port_delete, remove_at,
  remove_vrf_reference, remove_port_reference, remove_interface_from_lag_port, name_matches,
  remove_members, remove_from_port, remove_from_ports, remove_port_and_references,
}

-- The port is still to be visited.
abbrev pending : ℕ → CString → List PortRow → Bool
pending id name [] = false
pending id name (port ∷ rest) =
    port.id == id && strcmp_is_zero port.name name || pending id name rest

-- Every port of the name is still to be visited.
abbrev ArePending : CString → List PortRow → List PortRow → Type 0
ArePending name todo =
    All (λ port. (strcmp_is_zero port.name name && not (pending port.id port.name todo)) ≡ false)

-- No port has the name.
abbrev pub IsGone : CString → List PortRow → Type 0
IsGone name = All (λ port. strcmp_is_zero port.name name ≡ false)

visited : (name : CString) (ports : List PortRow) → ArePending name [] ports → IsGone name ports
visited name ports = All-map ports (λ port h. ground arith)

unvisited :
    (name : CString) (ports todo : List PortRow)
    → ((id : ℕ) (n : CString) → pending id n ports ≡ true → pending id n todo ≡ true)
    → ArePending name todo ports
unvisited name [] todo sub = tt
unvisited name (port ∷ ports) todo sub =
    let here : pending port.id port.name todo ≡ true =
      sub port.id port.name (rw ((==_iff port.id port.id).1 refl, strcmp_refl port.name) refl) in
    (ground arith, unvisited name ports todo (λ id n h. sub id n (ground arith)))

delete-ArePending :
    (name : CString) (port : PortRow) (todo ports : List PortRow)
    → ArePending name (port ∷ todo) ports
    → ArePending name todo (delete_port port.id ports)
delete-ArePending name port todo [] h = tt
delete-ArePending name port todo (q ∷ ports) (h, hs) = elim (Bool-cases (q.id == port.id)) [
  | inl e ↦ rw e (delete-ArePending name port todo ports hs)
  | inr e ↦ rw e (
      let other : (port.id == q.id) ≡ false = ground arith in
      (ground arith, delete-ArePending name port todo ports hs))
]

-- A port of another name.
pass-ArePending :
    (name : CString) (port : PortRow) (todo ports : List PortRow)
    → strcmp_is_zero port.name name ≡ false
    → ArePending name (port ∷ todo) ports
    → ArePending name todo ports
pass-ArePending name port todo ports e = All-map ports (λ q h.
    ground (arith, strcmp_iff port.name q.name, strcmp_iff q.name name, strcmp_iff port.name name))

set-ArePending :
    (name : CString) (id : ℕ) (interfaces : List ℕ) (todo ports : List PortRow)
    → ArePending name todo ports
    → ArePending name todo (set_interfaces id interfaces ports)
set-ArePending name id interfaces todo [] h = tt
set-ArePending name id interfaces todo (port ∷ ports) (h, hs) =
    (if_same (port.id == id) h, set-ArePending name id interfaces todo ports hs)
  where
    if_same :
        (test : Bool)
        → (strcmp_is_zero port.name name && not (pending port.id port.name todo)) ≡ false
        → let q = if test then record port { interfaces = interfaces } else port in
          (strcmp_is_zero q.name name && not (pending q.id q.name todo)) ≡ false
    if_same true e = e
    if_same false e = e

-- The tables of ports and of interfaces are as they were.
abbrev IsKept : Db → Db → Type 0
IsKept db db' = (db'.ports ≡ db.ports) × (db'.rows ≡ db.rows)

vrf-IsKept :
    (utils : Utils) (port : PortRow) (db : Db)
    → OnSome (IsKept db) (remove_vrf_reference utils port db)
unfolding remove_vrf_reference
vrf-IsKept utils port db =
    OnSome-if _ (utils.check_port_in_vrf db port.name) _ _
      (OnSome-bind _ (utils.port_match_in_vrf db port) _
        λ vrf e. OnSome-bind _ (remove_at port.id vrf db.vrfs) _ λ vrfs f. (refl, refl))
      (refl, refl)

reference-IsKept :
    (utils : Utils) (port : PortRow) (db : Db)
    → OnSome (IsKept db) (remove_port_reference utils port db)
unfolding remove_port_reference
reference-IsKept utils port db = OnSome-bind _ (remove_vrf_reference utils port db) _ λ db' e.
    let same =
      OnSome-some (IsKept db) (remove_vrf_reference utils port db) (vrf-IsKept utils port db) e in
    OnSome-if _ (utils.check_port_in_bridge db' port.name) _ _
      (OnSome-bind _ (remove_at port.id 0 db'.bridges) _ λ bridges f. same) same

module _ ⦃idl : Idl⦄ (utils : Utils) (name : CString) where
  members-ArePending :
      (fuel i : ℕ) (port : PortRow) (todo : List PortRow) (db : Db)
      → ArePending name todo db.ports
      → OnSome
          (λ (db' : Db). ArePending name todo db'.ports)
          (remove_members utils fuel i name port db)
  unfolding remove_members remove_interface_from_lag_port
  members-ArePending zero i port todo db h = h
  members-ArePending (suc fuel) i port todo db h = OnSome-option _ (at port.interfaces i) _ _ h λ r.
      OnSome-option _ (get_row db.rows r) _ _ tt λ row.
        OnSome-bool _ (name_matches row name) _ _
          (members-ArePending fuel (suc i) (record port { interfaces = without r port.interfaces })
            todo (remove_interface_from_lag_port utils port r db)
            (set-ArePending name port.id (without r port.interfaces) todo db.ports h))
          (members-ArePending fuel (suc i) port todo db h)

  port-ArePending :
      (port : PortRow) (todo : List PortRow) (db : Db)
      → ArePending name (port ∷ todo) db.ports
      → OnSome (λ (db' : Db). ArePending name todo db'.ports) (remove_from_port utils name port db)
  unfolding remove_from_port ovsrec_port_delete
  port-ArePending port todo db h = elim (Bool-cases (strcmp_is_zero port.name name)) [
    | inl e ↦ rw e (
        OnSome-bind _ (remove_port_reference utils port db) _ λ db' f.
          let same =
            OnSome-some (IsKept db) (remove_port_reference utils port db)
              (reference-IsKept utils port db) f in
          delete-ArePending name port todo db'.ports
            (subst (ArePending name (port ∷ todo)) (sym same.0) h))
    | inr e ↦ rw e (
        members-ArePending (length port.interfaces) 0 port todo db
          (pass-ArePending name port todo db.ports e h))
  ]

  ports-IsGone :
      (todo : List PortRow) (db : Db)
      → ArePending name todo db.ports
      → OnSome (λ (db' : Db). IsGone name db'.ports) (remove_from_ports utils name todo db)
  unfolding remove_from_ports
  ports-IsGone [] db h = visited name db.ports h
  ports-IsGone (port ∷ todo) db h = OnSome-bind _ (remove_from_port utils name port db) _ λ db' e.
      ports-IsGone todo db' (
        OnSome-some (λ (d : Db). ArePending name todo d.ports) (remove_from_port utils name port db)
          (port-ArePending port todo db h) e)

  pub remove_port_and_references-IsGone :
      (db : Db)
      → OnSome (λ (db' : Db). IsGone name db'.ports) (remove_port_and_references utils name db)
  unfolding remove_port_and_references
  remove_port_and_references-IsGone db =
      ports-IsGone db.ports db (unvisited name db.ports db.ports (λ id n h. h))

module _ ⦃idl : Idl⦄ (utils : Utils) (name : CString) where
  members-rows :
      (fuel i : ℕ) (port : PortRow) (db : Db)
      → OnSome (λ (db' : Db). db'.rows ≡ db.rows) (remove_members utils fuel i name port db)
  unfolding remove_members remove_interface_from_lag_port
  members-rows zero i port db = refl
  members-rows (suc fuel) i port db = OnSome-option _ (at port.interfaces i) _ _ refl λ r.
      OnSome-option _ (get_row db.rows r) _ _ tt λ row.
        OnSome-bool _ (name_matches row name) _ _
          (members-rows fuel (suc i) (record port { interfaces = without r port.interfaces })
            (remove_interface_from_lag_port utils port r db))
          (members-rows fuel (suc i) port db)

  port-rows :
      (port : PortRow) (db : Db)
      → OnSome (λ (db' : Db). db'.rows ≡ db.rows) (remove_from_port utils name port db)
  unfolding remove_from_port
  port-rows port db =
      OnSome-if _ (strcmp_is_zero port.name name) _ _
        (OnSome-bind _ (remove_port_reference utils port db) _ λ db' f.
          (OnSome-some (IsKept db) (remove_port_reference utils port db)
            (reference-IsKept utils port db) f).1)
        (members-rows (length port.interfaces) 0 port db)

  ports-rows :
      (todo : List PortRow) (db : Db)
      → OnSome (λ (db' : Db). db'.rows ≡ db.rows) (remove_from_ports utils name todo db)
  unfolding remove_from_ports
  ports-rows [] db = refl
  ports-rows (port ∷ todo) db = OnSome-bind _ (remove_from_port utils name port db) _ λ db' e.
      subst (λ rows. OnSome (λ (d : Db). d.rows ≡ rows) (remove_from_ports utils name todo db'))
        (OnSome-some (λ (d : Db). d.rows ≡ db.rows) (remove_from_port utils name port db)
          (port-rows port db) e)
        (ports-rows todo db')

  pub remove_port_and_references-rows :
      (db : Db)
      → OnSome (λ (db' : Db). db'.rows ≡ db.rows) (remove_port_and_references utils name db)
  unfolding remove_port_and_references
  remove_port_and_references-rows db = ports-rows db.ports db

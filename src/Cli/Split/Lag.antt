-- ===== src/Cli/Split/Lag.antt =====
-- The loop of remove_port_and_references in src/cli/intf_vty.c over the interfaces of a lag: an interface
-- is taken out if its name is a prefix of the name, and the one behind it is passed over.
use ops_intfd.Prelude.{
  ℕ, true, false, Option, some, List, [], ◌∷◌, ◌==◌, ◌≡◌, refl, ap, ◌∙◌, ==_iff, length,
}
use ops_intfd.CString.{CString, strcmp_is_zero, strncmp_is_zero}
use ops_intfd.Schema.{Idl}
use ops_intfd.Database.{Ifrow}
use ops_intfd.Daemon.{get_row}
use ops_intfd.Cli.Split.{
  PortRow, Db, Utils, without, set_interfaces, remove_interface_from_lag_port, remove_members,
  remove_from_port, remove_from_ports, remove_port_and_references,
}

dropped :
    (first second : ℕ)
    → (second == first) ≡ false
    → without first (first ∷ second ∷ []) ≡ second ∷ []
unfolding without
dropped first second distinct = rw ((==_iff first first).1 refl, distinct) refl

one_port :
    (port : PortRow) (interfaces : List ℕ)
    → set_interfaces port.id interfaces (port ∷ []) ≡ record port { interfaces = interfaces } ∷ []
one_port port interfaces = rw ((==_iff port.id port.id).1 refl) refl

module _ ⦃idl : Idl⦄ (utils : Utils) where
  -- For a database with one port, of another name than the one given and with two interfaces, where
  -- the name of the first is a prefix of the name given: the port is left with the second alone,
  -- whatever its name is, also if it is the name given; and nothing but the port and the column
  -- other_config is changed.
  pub remove_port_and_references-passed_over :
      (db : Db) (name : CString) (port : PortRow) (first second : ℕ) (row : Ifrow)
      → db.ports ≡ port ∷ []
      → strcmp_is_zero port.name name ≡ false
      → port.interfaces ≡ first ∷ second ∷ []
      → (second == first) ≡ false
      → get_row db.rows first ≡ some row
      → strncmp_is_zero row.name name (length row.name) ≡ true
      → (db' : Db) × (remove_port_and_references utils name db ≡ some db')
        × (db'.ports ≡ record port { interfaces = second ∷ [] } ∷ [])
        × (db'.rows ≡ db.rows)
        × (db'.vrfs ≡ db.vrfs)
        × (db'.bridges ≡ db.bridges)
  unfolding remove_port_and_references remove_from_ports remove_from_port remove_members
      remove_interface_from_lag_port
  remove_port_and_references-passed_over db name port first second row one differ members distinct
        found matches =
      let left = record port { interfaces = second ∷ [] } in
      let db' = record (remove_interface_from_lag_port utils port first db) { ports = left ∷ [] } in
      let both = record port { interfaces = first ∷ second ∷ [] } in
      let ports_eq : set_interfaces port.id (without first (first ∷ second ∷ [])) (both ∷ [])
          ≡ left ∷ [] =
        ap (λ xs. set_interfaces port.id xs (both ∷ [])) (dropped first second distinct)
        ∙ one_port both (second ∷ []) in
      (
        db',
        rw
            (
              remove_port_and_references,
              one,
              differ,
              members,
              remove_members,
              found,
              matches,
              dropped first second distinct,
            )
            (ap (λ (ports : List PortRow). Option.some (record db' { ports = ports })) ports_eq),
        refl,
        refl,
        refl,
        refl,
      )

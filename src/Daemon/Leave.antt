-- ===== src/Daemon/Leave.antt =====
-- An interface of src/intfd_ovsdb_if.c that leaves its port and is in no other: leave_port in
-- remove_interface_from_port, and what stays as it was. Daemon/Leave/Reset has the whole port.
pub mod Reset
use ops_intfd.Prelude.{
  ℕ, ◌≡◌, ◌≢◌, refl, sym, ap, ◌∙◌, subst, ◌⊎◌, Bool, true, false, Option, none, some, List, [], ◌∷◌,
  ◌==◌, ◌>>=◌, if◌then◌else◌, ◌&&◌, ◌||◌, is_some, Option-cases, Bool-cases, inl, inr, All, All-map,
  ==_iff, arith,
}
use ops_intfd.CString.{CString, strcmp_is_zero}
use ops_intfd.CString.Equality.{strcmp_sound}
use ops_intfd.Smap.{smap_get}
use ops_intfd.Smap.Laws.{get-init, get-add}
use ops_intfd.Schema.{Idl, PortAdmin, HwConfigKey}
use ops_intfd.Database.{Ifrow}
use ops_intfd.Interface.{Iface}
use ops_intfd.Config.State.{Heap}
use ops_intfd.Daemon.{
  shash_find, Rows, get_row, put_row, store_row, store_iface, PortRow, PortInfo, World, for_each,
  update_heap,
}
use ops_intfd.Daemon.Ports.{
  has_interface, get_matching_port_row, port_parse_admin, disabled, reset_row, leave_port,
  empty_port, drop_lost, occurs, remove_interface_from_port,
}

-- A write changes the row of the number, if there is one, and no other.
pub get-put_row :
    (rows : Rows) (r s : ℕ) (row : Ifrow)
    → get_row (put_row rows r row) s
      ≡ (if r == s && is_some (get_row rows s) then some row else get_row rows s)
unfolding get_row put_row
get-put_row [] r s row = ground arith
get-put_row ((t, other) ∷ rows) r s row = ground (arith, get-put_row rows r s row)

-- The name of the row of a number.
abbrev pub name_of : Rows → ℕ → Option CString
name_of rows r = elim (get_row rows r) [ none ↦ none | some row ↦ some row.name ]

-- No port of the table has an interface of the name.
abbrev pub InNoPort : List PortRow → Rows → CString → Type 0
InNoPort ports rows name = All (λ port. All (λ r. name_of rows r ≢ some name) port.interfaces) ports

-- The number is that of a row whose interface is cached, allocated, and in no port.
abbrev pub IsOrphan : List PortRow → World → ℕ → Type 0
IsOrphan ports w r =
    (row : Ifrow) × (a : ℕ) × (intf : Iface) × (get_row w.rows r ≡ some row)
    × (shash_find w.all_interfaces row.name ≡ some a)
    × (w.heap a ≡ some intf)
    × InNoPort ports w.rows row.name

has_interface-none :
    (rows : Rows) (name : CString) (rs : List ℕ)
    → All (λ r. name_of rows r ≢ some name) rs
    → has_interface rows name rs ≡ false
unfolding has_interface
has_interface-none rows name [] h = refl
has_interface-none rows name (r ∷ rs) (h, hs) = elim (Option-cases (get_row rows r)) [
  | inl n ↦ rw (n, has_interface-none rows name rs hs) refl
  | inr (row, e) ↦ elim (Bool-cases (strcmp_is_zero row.name name)) [
    | inl same ↦ absurd (h (rw (name_of, e) (ap Option.some (strcmp_sound row.name name same))))
    | inr other ↦ rw (e, other, has_interface-none rows name rs hs) refl
  ]
]

pub matching-none :
    (ports : List PortRow) (rows : Rows) (name : CString)
    → InNoPort ports rows name
    → get_matching_port_row ports rows name ≡ none
unfolding get_matching_port_row
matching-none [] rows name h = refl
matching-none (port ∷ ports) rows name (h, hs) =
    rw (has_interface-none rows name port.interfaces h) (matching-none ports rows name hs)

module _ ⦃idl : Idl⦄ where
  pub leave_lem :
      (ports : List PortRow) (r a : ℕ) (w : World) (row : Ifrow) (intf : Iface)
      → get_row w.rows r ≡ some row
      → w.heap a ≡ some intf
      → get_matching_port_row ports w.rows row.name ≡ none
      → leave_port ports r a w
        ≡ some (
            store_row r
              (disabled row)
              (store_iface a (record intf { port_admin = PortAdmin.down }) w))
  unfolding leave_port reset_row
  leave_lem ports r a w row intf found cell alone =
      let nowhere : port_parse_admin ports w.rows row.name ≡ (false, PortAdmin.down) =
        rw (port_parse_admin, alone) refl in
      rw (leave_port, found, ◌>>=◌, nowhere, cell, reset_row, found) (rw nowhere refl)

  abbrev pub off : Option Ifrow → Option Ifrow
  off none = none
  off (some row) = some (disabled row)

  abbrev pub down : Option Iface → Option Iface
  down none = none
  down (some intf) = some (record intf { port_admin = PortAdmin.down })

  -- The rows that pass the test have been disabled, no other row has changed, and the port of some
  -- interfaces is down.
  pub record Stage (test : ℕ → Bool) (w w' : World) : Type 0 where
    pub rows_eq :
        (s : ℕ) → get_row w'.rows s ≡ (if test s then off (get_row w.rows s) else get_row w.rows s)
    pub cached : w'.all_interfaces ≡ w.all_interfaces
    pub cells : (a : ℕ) → (w'.heap a ≡ w.heap a) ⊎ (w'.heap a ≡ down (w.heap a))

  if_off :
      (t u : Bool) (o : Option Ifrow)
      → (if u then off (if t then off o else o) else (if t then off o else o))
        ≡ (if t || u then off o else o)
  if_off t u none = ground arith
  if_off true true (some row) = refl
  if_off true false (some row) = refl
  if_off false u (some row) = refl

  down-down : (o : Option Iface) → down (down o) ≡ down o
  down-down none = refl
  down-down (some intf) = refl

  -- The cell is as it was, or its port is down.
  abbrev pub IsLowered : Option Iface → Option Iface → Type 0
  IsLowered before after = (after ≡ before) ⊎ (after ≡ down before)

  IsLowered-trans : (x y z : Option Iface) → IsLowered x y → IsLowered y z → IsLowered x z
  IsLowered-trans x y z (inl e) (inl f) = inl (f ∙ e)
  IsLowered-trans x y z (inl e) (inr f) = inr (f ∙ ap down e)
  IsLowered-trans x y z (inr e) (inl f) = inr (f ∙ e)
  IsLowered-trans x y z (inr e) (inr f) = inr (f ∙ ap down e ∙ down-down x)

  abbrev pub IsDown : Option Iface → Type 0
  IsDown none = ⊥
  IsDown (some intf) = intf.port_admin ≡ PortAdmin.down

  IsDown-down : (o : Option Iface) → IsDown o → IsDown (down o)
  IsDown-down none h = h
  IsDown-down (some intf) h = refl

  pub IsDown-IsLowered : (x y : Option Iface) → IsLowered x y → IsDown x → IsDown y
  IsDown-IsLowered x y (inl e) h = subst IsDown (sym e) h
  IsDown-IsLowered x y (inr e) h = subst IsDown (sym e) (IsDown-down x h)

  pub Stage-trans :
      (t u v : ℕ → Bool) (w w1 w2 : World)
      → ((s : ℕ) → v s ≡ (t s || u s))
      → Stage t w w1
      → Stage u w1 w2
      → Stage v w w2
  Stage-trans t u v w w1 w2 e g h = record {
    rows_eq = λ s. h.rows_eq s ∙ rw (g.rows_eq s, e s) (if_off (t s) (u s) (get_row w.rows s));
    cached = h.cached ∙ g.cached;
    cells = λ a. IsLowered-trans (w.heap a) (w1.heap a) (w2.heap a) (g.cells a) (h.cells a);
  }

  pub Stage-row :
      (t : ℕ → Bool) (w w' : World) (r : ℕ) (row : Ifrow)
      → Stage t w w'
      → get_row w.rows r ≡ some row
      → (row' : Ifrow) × (get_row w'.rows r ≡ some row') × (row'.name ≡ row.name)
  Stage-row t w w' r row g e = elim (Bool-cases (t r)) [
    | inl on ↦ (disabled row, g.rows_eq r ∙ rw (on, e) refl, refl)
    | inr out ↦ (row, g.rows_eq r ∙ rw (out, e) refl, refl)
  ]

  name_if :
      (t : Bool) (o : Option Ifrow)
      → elim (if t then off o else o) [ none ↦ none | some row ↦ some row.name ]
        ≡ elim o as (λ _. Option CString) [ none ↦ none | some row ↦ some row.name ]
  name_if true none = refl
  name_if true (some row) = refl
  name_if false o = refl

  Stage-name_of :
      (t : ℕ → Bool) (w w' : World) (r : ℕ) → Stage t w w' → name_of w'.rows r ≡ name_of w.rows r
  Stage-name_of t w w' r g =
      ap (λ o. elim o as (λ _. Option CString) [ none ↦ none | some row ↦ some row.name ])
        (g.rows_eq r)
      ∙ name_if (t r) (get_row w.rows r)

  pub Stage-cell :
      (t : ℕ → Bool) (w w' : World) (a : ℕ) (intf : Iface)
      → Stage t w w'
      → w.heap a ≡ some intf
      → (intf' : Iface) × (w'.heap a ≡ some intf')
  Stage-cell t w w' a intf g e = elim (g.cells a) [
    | inl same ↦ (intf, same ∙ e)
    | inr lower ↦ (record intf { port_admin = PortAdmin.down }, lower ∙ ap down e)
  ]

  Stage-InNoPort :
      (t : ℕ → Bool) (w w' : World) (ports : List PortRow) (name : CString)
      → Stage t w w'
      → InNoPort ports w.rows name
      → InNoPort ports w'.rows name
  Stage-InNoPort t w w' ports name g =
      All-map ports
        (λ port. All-map port.interfaces (λ r h e. h (sym (Stage-name_of t w w' r g) ∙ e)))

  pub Stage-IsOrphan :
      (t : ℕ → Bool) (w w' : World) (ports : List PortRow) (r : ℕ)
      → Stage t w w'
      → IsOrphan ports w r
      → IsOrphan ports w' r
  Stage-IsOrphan t w w' ports r g (row, a, intf, found, cached, cell, alone) =
      let (row', found', same) = Stage-row t w w' r row g found in
      let (intf', cell') = Stage-cell t w w' a intf g cell in
      (
        row',
        a,
        intf',
        found',
        ap (λ c. shash_find c row'.name) g.cached
            ∙ ap (λ n. shash_find w.all_interfaces n) same
            ∙ cached,
        cell',
        subst (InNoPort ports w'.rows) (sym same) (Stage-InNoPort t w w' ports row.name g alone),
      )

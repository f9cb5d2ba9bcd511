-- ===== src/Pass/Columns.antt =====
-- What a pass of the arbiter leaves in the rows, and that a second pass finds nothing to do.
use ops_intfd.Prelude.{
  ◌<◌, ◌≡◌, refl, sym, ap, ◌∙◌, Bool, false, ◌||◌, not, Bool-cases, inl, inr, some, List, [], ◌∷◌,
  arith, All,
}
use ops_intfd.CString.{CString}
use ops_intfd.Smap.{Smap, smap_get, smap_equal}
use ops_intfd.Smap.Laws.{smap_equal_iff}
use ops_intfd.Schema.{Idl}
use ops_intfd.Database.{Ifrow}
use ops_intfd.Arbiter.{LayerClass, interface_run, lacp_state}
use ops_intfd.Arbiter.Registered.{Reached, next, interface_run_total}
use ops_intfd.Arbiter.Column.{KeysDiffer, expected_column, interface_run-column}
use ops_intfd.Pass.{arbiter_run, write_column}

module _ ⦃idl : Idl⦄ where
  open idl use {proto_none, proto_lacp}

  -- The second row is the first with the column that it should have.
  abbrev pub IsArbitrated : Ifrow → Ifrow → Type 0
  IsArbitrated before after =
      (after ≡ record before { forwarding_state = after.forwarding_state })
      × ((key : CString)
          → smap_get after.forwarding_state key
            ≡ expected_column before before.forwarding_state key)

  abbrev pub AllArbitrated : List Ifrow → List Ifrow → Type 0
  AllArbitrated [] [] = Unit
  AllArbitrated [] (_ ∷ _) = ⊥
  AllArbitrated (_ ∷ _) [] = ⊥
  AllArbitrated (before ∷ rest) (after ∷ done) = IsArbitrated before after × AllArbitrated rest done

  -- The row has the column that it should have.
  abbrev IsQuiet : Ifrow → Type 0
  IsQuiet row =
      (key : CString)
      → expected_column row row.forwarding_state key ≡ smap_get row.forwarding_state key

  expected_again :
      (row : Ifrow) (m m' : Smap) (key : CString)
      → smap_get m' key ≡ expected_column row m key
      → expected_column row m' key ≡ smap_get m' key
  expected_again row m m' key h = ground arith

  IsArbitrated-IsQuiet : (before after : Ifrow) → IsArbitrated before after → IsQuiet after
  unfolding lacp_state
  IsArbitrated-IsQuiet before after (same, h) key =
      ap (λ row. expected_column row after.forwarding_state key) same
      ∙ expected_again before before.forwarding_state after.forwarding_state key (h key)

  AllArbitrated-IsQuiet : (rows done : List Ifrow) → AllArbitrated rows done → All IsQuiet done
  AllArbitrated-IsQuiet [] [] h = tt
  AllArbitrated-IsQuiet [] (_ ∷ _) h = absurd h
  AllArbitrated-IsQuiet (_ ∷ _) [] h = absurd h
  AllArbitrated-IsQuiet (row ∷ rows) (after ∷ done) (h, hs) =
      (IsArbitrated-IsQuiet row after h, AllArbitrated-IsQuiet rows done hs)

  module _ (ranked : proto_lacp < proto_none) (differ : KeysDiffer) where
    column_of :
        (layers : List LayerClass) (row : Ifrow) (m : Smap) {left : List LayerClass} {m' : Smap}
        → Reached layers
        → interface_run layers row m ≡ some (left, m')
        → (key : CString) → smap_get m' key ≡ expected_column row m key
    column_of layers row m r e key =
        let (found, e', column) = interface_run-column layers row m key ranked differ r in
        cc (e, e', column)

    write-IsArbitrated :
        (row : Ifrow) (m : Smap)
        → ((key : CString) → smap_get m key ≡ expected_column row row.forwarding_state key)
        → IsArbitrated row (write_column row m)
    write-IsArbitrated row m h = elim (Bool-cases (smap_equal m row.forwarding_state)) [
      | inl e ↦ rw e (refl, λ key. sym ((smap_equal_iff m row.forwarding_state).0 e key) ∙ h key)
      | inr e ↦ rw e (refl, h)
    ]

    -- Where LACP's number is below that of "no protocol" and the keys of the column differ: a pass
    -- over any rows does not fault, and changes each row only in its column forwarding_state, where
    -- each key gets the value that the row's own state calls for.
    pub arbiter_run-AllArbitrated :
        (layers : List LayerClass) (rows : List Ifrow)
        → Reached layers
        → (result : Bool × List LayerClass × List Ifrow) × (arbiter_run layers rows ≡ some result)
          × AllArbitrated rows result.2
          × Reached result.1
    unfolding arbiter_run
    arbiter_run-AllArbitrated layers [] r = ((false, layers, []), refl, tt, r)
    arbiter_run-AllArbitrated layers (row ∷ rows) r =
        let ((left, m), e) = interface_run_total layers row row.forwarding_state r in
        let after = next row row.forwarding_state m r e in
        let ((rc, last, done), e', all, reached) = arbiter_run-AllArbitrated left rows after in
        (
          (not (smap_equal m row.forwarding_state) || rc, last, write_column row m ∷ done),
          rw (e, e') refl,
          (write-IsArbitrated row m (column_of layers row row.forwarding_state r e), all),
          reached,
        )

    quiet_pass :
        (layers : List LayerClass) (rows : List Ifrow)
        → Reached layers
        → All IsQuiet rows
        → (left : List LayerClass) × (arbiter_run layers rows ≡ some (false, left, rows))
    unfolding arbiter_run
    quiet_pass layers [] r q = (layers, refl)
    quiet_pass layers (row ∷ rows) r (q, qs) =
        let ((left, m), e) = interface_run_total layers row row.forwarding_state r in
        let after = next row row.forwarding_state m r e in
        let (last, e') = quiet_pass left rows after qs in
        let same =
          (smap_equal_iff m row.forwarding_state).1
            (λ key. column_of layers row row.forwarding_state r e key ∙ q key) in
        (last, rw (e, e', same) refl)

    -- Where LACP's number is below that of "no protocol" and the keys of the column differ: a second
    -- pass over the rows that a pass has left writes nothing and reports that nothing changed.
    pub arbiter_run_twice :
        (layers : List LayerClass) (rows : List Ifrow)
        → Reached layers
        → (result : Bool × List LayerClass × List Ifrow) × (left : List LayerClass) × (arbiter_run
              layers rows
            ≡ some result)
          × (arbiter_run result.1 result.2 ≡ some (false, left, result.2))
    arbiter_run_twice layers rows r =
        let (result, e, all, reached) = arbiter_run-AllArbitrated layers rows r in
        let (left, again) =
          quiet_pass result.1 result.2 reached (AllArbitrated-IsQuiet rows result.2 all) in
        (result, left, e, again)

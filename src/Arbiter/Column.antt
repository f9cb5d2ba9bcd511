-- ===== src/Arbiter/Column.antt =====
-- What the arbiter writes to the column `forwarding_state` of an interface, key by key.
use ops_intfd.Prelude.{
  ℕ, ◌<◌, ◌≡◌, ◌≢◌, Bool, true, false, ◌||◌, ◌&&◌, ◌==◌, not, Option, none, some, List, [], ◌∷◌,
  arith, if◌then◌else◌,
}
use ops_intfd.CString.{CString, strcmp_is_zero}
use ops_intfd.CString.Equality.{strcmp_iff}
use ops_intfd.Smap.{Smap, smap_get}
use ops_intfd.Smap.Laws.{smap_laws}
use ops_intfd.Schema.{Idl, forwarding, aggregation_forwarding, aggregation_blocked_reason}
use ops_intfd.Database.{Ifrow}
use ops_intfd.Arbiter.{LayerClass, is_oper_up, get_state_value, interface_run, lacp_state}
use ops_intfd.Arbiter.Layer.{should_block, should_own}
use ops_intfd.Arbiter.Registered.{
  Reached, lacp, aggregation, put_state, published, finish, interface_run-eq,
}

module _ ⦃idl : Idl⦄ where
  open idl use {
    proto_none, proto_lacp, forwarding_key, forwarding_true, forwarding_false, protocol_lacp,
  }

  -- The three keys of the column differ.
  pub record KeysDiffer : Type 0 where
    pub state_layer : forwarding_key forwarding ≢ forwarding_key aggregation_forwarding
    pub state_owner : forwarding_key forwarding ≢ forwarding_key aggregation_blocked_reason
    pub layer_owner :
        forwarding_key aggregation_forwarding ≢ forwarding_key aggregation_blocked_reason

  abbrev column : Bool → Bool → Smap → CString → Option CString
  column up bad m key =
      if strcmp_is_zero (forwarding_key forwarding) key
      then some (if not up || bad then forwarding_false else forwarding_true)
      else if strcmp_is_zero (forwarding_key aggregation_forwarding) key
      then (if up then some (if bad then forwarding_false else forwarding_true) else none)
      else if strcmp_is_zero (forwarding_key aggregation_blocked_reason) key
      then (if up then (if bad then some protocol_lacp else none) else none)
      else smap_get m key

  -- The column that an interface should have: open exactly if the interface is operationally up and
  -- LACP does not block; the layer's own state only while the interface is up; the reason only
  -- while LACP blocks it. Other keys stay.
  abbrev pub expected_column : Ifrow → Smap → CString → Option CString
  expected_column row m key = column (is_oper_up row) (lacp_state row) m key

  pub put_state-get :
      (unowned blocked : Bool) (m : Smap) (key : CString)
      → KeysDiffer
      → smap_get (put_state unowned blocked m) key ≡ (
          if strcmp_is_zero (forwarding_key aggregation_forwarding) key
          then (if unowned && blocked
              then none
              else some (if blocked then forwarding_false else forwarding_true))
          else if strcmp_is_zero (forwarding_key aggregation_blocked_reason) key
          then (if unowned then none else some protocol_lacp)
          else smap_get m key)
  unfolding get_state_value
  put_state-get false blocked m key d = simp smap_laws (
      ground (
        arith,
        strcmp_iff (forwarding_key aggregation_forwarding) key,
        strcmp_iff (forwarding_key aggregation_blocked_reason) key,
      ))
  put_state-get true true m key d = simp smap_laws (ground arith)
  put_state-get true false m key d = simp smap_laws (
      ground (
        arith,
        strcmp_iff (forwarding_key aggregation_forwarding) key,
        strcmp_iff (forwarding_key aggregation_blocked_reason) key,
      ))

  column-published :
      (up bad : Bool) (own : ℕ) (m : Smap) (key : CString)
      → proto_lacp < proto_none
      → KeysDiffer
      → own ≡ (if not up then proto_none else if bad then proto_lacp else proto_none)
      → let block = not up || bad in
        smap_get (finish (aggregation own block) (published own block m)).1 key
        ≡ column up bad m key
  unfolding get_state_value
  column-published up bad own m key ranked d o = simp smap_laws (
      ground (
        arith,
        put_state-get (own == proto_none) (not up || bad) m key d,
        strcmp_iff (forwarding_key forwarding) key,
        strcmp_iff (forwarding_key aggregation_forwarding) key,
        strcmp_iff (forwarding_key aggregation_blocked_reason) key,
      ))

  own-eq :
      (row : Ifrow)
      → should_own none (lacp ∷ []) row ≡ (
          if not (is_oper_up row)
          then proto_none
          else if lacp_state row
          then proto_lacp
          else proto_none)
  own-eq row = ground arith

  block-eq :
      (row : Ifrow) → should_block none (lacp ∷ []) row ≡ not (is_oper_up row) || lacp_state row
  block-eq row = ground arith

  -- Where LACP's number is below that of "no protocol" and the three keys differ, a run for an
  -- interface gives each key of its column the value that the interface's own state calls for, and
  -- keeps every other key, whatever interfaces came before.
  pub interface_run-column :
      (layers : List LayerClass) (row : Ifrow) (m : Smap) (key : CString)
      → proto_lacp < proto_none
      → KeysDiffer
      → Reached layers
      → (result : List LayerClass × Smap) × (interface_run layers row m ≡ some result)
        × (smap_get result.1 key ≡ expected_column row m key)
  interface_run-column layers row m key ranked d r =
      let own = should_own none (lacp ∷ []) row in
      let block = should_block none (lacp ∷ []) row in
      (
        finish (aggregation own block) (published own block m),
        interface_run-eq ranked layers row m r,
        rw (block-eq row)
            (column-published (is_oper_up row) (lacp_state row) own m key ranked d (own-eq row)),
      )

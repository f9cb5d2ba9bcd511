-- ===== src/Arbiter/Registered.antt =====
-- The arbiter as intfd_arbiter_init registers it, over the interfaces of a pass: its layers are
-- global, so each interface finds them as the one before left them.
use ops_intfd.Prelude.{
  ℕ, ◌<◌, ◌≡◌, refl, sym, ap, ◌∙◌, ◌⊎◌, inl, inr, Bool, true, false, none, some, List, [], ◌∷◌,
  arith, ◌==◌,
}
use ops_intfd.Smap.{Smap, smap_remove, smap_replace}
use ops_intfd.Schema.{Idl, ForwardingKey}
use ops_intfd.Database.{Ifrow}
use ops_intfd.Arbiter.{
  ProtoClass, LayerClass, arbiter_proto_run, arbiter_layer_run, proto_run, walk_protos, layer_run,
  publish_layer, get_state_value, interface_run, lacp_state, arbiter_init,
}
use ops_intfd.Arbiter.Layer.{
  IsSettled, should_block, should_own, layer_run-blocked, layer_run-owner, layer_run-same,
  layer_run-IsSettled,
}

module _ ⦃idl : Idl⦄ where
  open idl use {
    proto_none, proto_lacp, layer_aggregation, forwarding_key, forwarding_true, forwarding_false,
    protocol_lacp,
  }

  -- The layers that a sequence of interfaces leaves behind, from the registered ones on.
  pub data Reached : List LayerClass → Type 0 where
    start : Reached arbiter_init
    next :
        {layers left : List LayerClass} (row : Ifrow) (m m' : Smap)
        → Reached layers
        → interface_run layers row m ≡ some (left, m')
        → Reached left

  abbrev pub lacp : ProtoClass
  lacp = record { id = proto_lacp; run = some arbiter_proto_run; get_state = some lacp_state }

  abbrev pub aggregation : ℕ → Bool → LayerClass
  aggregation owner blocked = record {
    id = layer_aggregation;
    owner = owner;
    protos = lacp ∷ [];
    blocked = blocked;
    run = some arbiter_layer_run;
  }

  pub init-eq : arbiter_init ≡ aggregation proto_none false ∷ []
  unfolding arbiter_init
  init-eq = refl

  aggregation_run :
      (owner : ℕ) (blocked : Bool) (row : Ifrow)
      → (layer_run none (aggregation owner blocked) row).1
        ≡ aggregation
            (layer_run none (aggregation owner blocked) row).1.owner
            (layer_run none (aggregation owner blocked) row).1.blocked
  aggregation_run owner blocked row =
      let (i, p, r) = layer_run-same none (aggregation owner blocked) row in
      λ j. record {
        id = i j;
        owner = (layer_run none (aggregation owner blocked) row).1.owner;
        protos = p j;
        blocked = (layer_run none (aggregation owner blocked) row).1.blocked;
        run = r j;
      }

  abbrev pub IsKnown : ℕ → Type 0
  IsKnown owner = (owner ≡ proto_none) ⊎ (owner ≡ proto_lacp)

  aggregation_run-IsKnown :
      (owner : ℕ) (blocked : Bool) (row : Ifrow)
      → IsKnown owner
      → IsKnown (layer_run none (aggregation owner blocked) row).1.owner
  unfolding layer_run walk_protos proto_run
  aggregation_run-IsKnown owner blocked row k = ground arith

  -- What is written for the layer, by whether it has no owner and whether it is blocked.
  abbrev pub put_state : Bool → Bool → Smap → Smap
  put_state false blocked m =
      smap_replace
        (smap_replace m (forwarding_key ForwardingKey.aggregation_forwarding)
          (get_state_value blocked))
        (forwarding_key ForwardingKey.aggregation_blocked_reason) protocol_lacp
  put_state true true m =
      smap_remove (smap_remove m (forwarding_key ForwardingKey.aggregation_forwarding))
        (forwarding_key ForwardingKey.aggregation_blocked_reason)
  put_state true false m =
      smap_remove
        (smap_replace m (forwarding_key ForwardingKey.aggregation_forwarding)
          (get_state_value false))
        (forwarding_key ForwardingKey.aggregation_blocked_reason)

  abbrev pub published : ℕ → Bool → Smap → Smap
  published owner blocked m = put_state (owner == proto_none) blocked m

  publish-eq :
      (owner : ℕ) (blocked : Bool) (m : Smap)
      → IsKnown owner
      → publish_layer (aggregation owner blocked) m ≡ some (published owner blocked m)
  unfolding publish_layer
  publish-eq owner blocked m k = ground arith

  abbrev pub finish : LayerClass → Smap → List LayerClass × Smap
  finish layer m = (
    layer ∷ [],
    smap_replace m (forwarding_key ForwardingKey.forwarding) (get_state_value layer.blocked),
  )

  -- A run over the one layer, from any owner that it can have.
  pub run_one :
      (owner : ℕ) (blocked : Bool) (row : Ifrow) (m : Smap)
      → IsKnown owner
      → let layer = (layer_run none (aggregation owner blocked) row).1 in
        interface_run (aggregation owner blocked ∷ []) row m
        ≡ some
            (finish (aggregation layer.owner layer.blocked) (published layer.owner layer.blocked m))
  unfolding interface_run
  run_one owner blocked row m k =
      let layer = (layer_run none (aggregation owner blocked) row).1 in
      let known = aggregation_run-IsKnown owner blocked row k in
      rw (aggregation_run owner blocked row)
        (rw (publish-eq layer.owner layer.blocked m known) refl)

  -- The shape of the layers that any pass leaves.
  record IsShaped (layers : List LayerClass) : Type 0 where
    owner : ℕ
    blocked : Bool
    known : IsKnown owner
    shape : layers ≡ aggregation owner blocked ∷ []

  Reached-IsShaped : {layers : List LayerClass} → Reached layers → IsShaped layers
  Reached-IsShaped start = record {
    owner = proto_none;
    blocked = false;
    known = inl refl;
    shape = init-eq;
  }
  Reached-IsShaped (next row m m' r e) =
      let before = Reached-IsShaped r in
      let layer = (layer_run none (aggregation before.owner before.blocked) row).1 in
      record {
        owner = layer.owner;
        blocked = layer.blocked;
        known = aggregation_run-IsKnown before.owner before.blocked row before.known;
        shape = cc (e, before.shape, run_one before.owner before.blocked row m before.known);
      }

  -- No run of the registered arbiter faults: whatever interfaces came before, every key and every
  -- owner's name that it writes is there.
  pub interface_run_total :
      (layers : List LayerClass) (row : Ifrow) (m : Smap)
      → Reached layers
      → (result : List LayerClass × Smap) × (interface_run layers row m ≡ some result)
  interface_run_total layers row m r =
      let s = Reached-IsShaped r in
      let layer = (layer_run none (aggregation s.owner s.blocked) row).1 in
      (
        finish (aggregation layer.owner layer.blocked) (published layer.owner layer.blocked m),
        ap (λ ls. interface_run ls row m) s.shape ∙ run_one s.owner s.blocked row m s.known,
      )

  module _ (ranked : proto_lacp < proto_none) where
    record IsSteady (layers : List LayerClass) : Type 0 where
      owner : ℕ
      blocked : Bool
      settled : IsSettled (aggregation owner blocked)
      shape : layers ≡ aggregation owner blocked ∷ []

    steady-IsKnown :
        {owner : ℕ} {blocked : Bool} → IsSettled (aggregation owner blocked) → IsKnown owner
    steady-IsKnown s = ground (arith, s.owned)

    run_steady :
        (owner : ℕ) (blocked : Bool) (row : Ifrow) (m : Smap)
        → IsSettled (aggregation owner blocked)
        → let own = should_own none (lacp ∷ []) row in
          let block = should_block none (lacp ∷ []) row in
          interface_run (aggregation owner blocked ∷ []) row m
          ≡ some (finish (aggregation own block) (published own block m))
    run_steady owner blocked row m s = rw (
      run_one owner blocked row m (steady-IsKnown s),
      layer_run-owner none (aggregation owner blocked) row (ranked, tt, tt) s,
      (layer_run-blocked none (aggregation owner blocked) row).1,
    )

    init-IsSteady : IsSteady arbiter_init
    init-IsSteady = record {
      owner = proto_none;
      blocked = false;
      settled = record { owned = inr refl; open_unowned = λ b. refl };
      shape = init-eq;
    }

    Reached-IsSteady : {layers : List LayerClass} → Reached layers → IsSteady layers
    Reached-IsSteady start = init-IsSteady
    Reached-IsSteady (next row m m' r e) =
        let b = Reached-IsSteady r in
        let layer = aggregation b.owner b.blocked in
        let run = (layer_run none layer row).1 in
        record {
          owner = run.owner;
          blocked = run.blocked;
          settled =
              rw (aggregation_run b.owner b.blocked row) at
                (layer_run-IsSettled none layer row (ranked, tt, tt) b.settled);
          shape = cc (e, b.shape, run_one b.owner b.blocked row m (steady-IsKnown b.settled));
        }

    -- Where LACP's number is below that of "no protocol", what a run does for an interface does not
    -- depend on the interfaces that came before it in any pass.
    pub interface_run-Reached :
        (layers : List LayerClass) (row : Ifrow) (m : Smap)
        → Reached layers
        → interface_run layers row m ≡ interface_run arbiter_init row m
    interface_run-Reached layers row m r =
        let s = Reached-IsSteady r in
        let i = init-IsSteady in
        rw (s.shape, run_steady s.owner s.blocked row m s.settled)
          (sym (rw i.shape (run_steady i.owner i.blocked row m i.settled)))

    -- The column that a run writes, in terms of the map before it.
    pub interface_run-eq :
        (layers : List LayerClass) (row : Ifrow) (m : Smap)
        → Reached layers
        → let own = should_own none (lacp ∷ []) row in
          let block = should_block none (lacp ∷ []) row in
          interface_run layers row m ≡ some (finish (aggregation own block) (published own block m))
    interface_run-eq layers row m r =
        let i = init-IsSteady in
        interface_run-Reached layers row m r
        ∙ rw i.shape (run_steady i.owner i.blocked row m i.settled)

-- ===== src/Arbiter/Chain.antt =====
-- The layers of an interface one after another (intfd_arbiter_interface_run), and the lists that
-- the attach functions build.
use ops_intfd.Prelude.{
  ◌≡◌, refl, Bool, true, false, ◌||◌, not, Option, none, some, List, [], ◌∷◌, ◌++◌, ap, arith, All,
  >>=-eq-some,
}
use ops_intfd.CString.Equality.{strcmp_refl}
use ops_intfd.Smap.{Smap, smap_get}
use ops_intfd.Smap.Laws.{get-replace}
use ops_intfd.Schema.{Idl, ForwardingKey}
use ops_intfd.Database.{Ifrow}
use ops_intfd.Arbiter.{
  LayerClass, ProtoClass, is_prev_blocked, is_oper_up, get_state_value, publish_layer, call_layer,
  run_layers, interface_state, interface_run, attach_proto, attach_layer,
}
use ops_intfd.Arbiter.Layer.{is_set, any_blocking, should_block, layer_run-blocked}

-- The new protocol goes to the end, behind all that take precedence.
pub attach_proto-eq-append :
    (ps : List ProtoClass) (p : ProtoClass) → attach_proto ps p ≡ ps ++ p ∷ []
unfolding attach_proto
attach_proto-eq-append [] p = refl
attach_proto-eq-append (q ∷ ps) p = ap (λ r. q ∷ r) (attach_proto-eq-append ps p)

pub attach_layer-eq-append :
    (ls : List LayerClass) (l : LayerClass) → attach_layer ls l ≡ ls ++ l ∷ []
unfolding attach_layer
attach_layer-eq-append [] l = refl
attach_layer-eq-append (k ∷ ls) l = ap (λ r. k ∷ r) (attach_layer-eq-append ls l)

-- Every layer has its callback.
abbrev pub AllRun : List LayerClass → Type 0
AllRun = All (λ (layer : LayerClass). is_set layer.run ≡ true)

module _ ⦃idl : Idl⦄ where
  open idl use {forwarding_key}

  -- Some layer would be blocked by itself, whatever stands before it.
  abbrev pub any_layer_blocks : Ifrow → List LayerClass → Bool
  any_layer_blocks row [] = false
  any_layer_blocks row (layer ∷ rest) =
      not (is_oper_up row) || any_blocking row layer.protos || any_layer_blocks row rest

  call_layer-blocked :
      (prev : Option LayerClass) (layer : LayerClass) (row : Ifrow)
      → is_set layer.run ≡ true
      → (call_layer prev layer row).blocked ≡ should_block prev layer.protos row
  call_layer-blocked prev layer row h = ground (arith, layer_run-blocked prev layer row)

  run_layers-last :
      (prev : Option LayerClass) (layers : List LayerClass) (row : Ifrow) (m : Smap)
      {done : List LayerClass} {last : Option LayerClass} {m' : Smap}
      → AllRun layers
      → run_layers prev layers row m ≡ some (done, last, m')
      → is_prev_blocked last ≡ is_prev_blocked prev || any_layer_blocks row layers
  unfolding run_layers
  run_layers-last prev [] row m a h = ground arith
  run_layers-last prev (layer ∷ rest) row m a h =
      let layer' = call_layer prev layer row in
      let (m1, _, tail) = >>=-eq-some (publish_layer layer' m) _ h in
      let ((done, last, m2), walked, ends) =
        >>=-eq-some (run_layers (some layer') rest row m1) _ tail in
      ground (
        arith,
        ends,
        call_layer-blocked prev layer row a.0,
        run_layers-last (some layer') rest row m1 a.1 walked,
      )

  interface_state-blocked :
      (last : Option LayerClass) → interface_state last ≡ get_state_value (is_prev_blocked last)
  unfolding get_state_value
  interface_state-blocked none = refl
  interface_state-blocked (some last) = refl

  -- Where every layer has its callback, the value that a run without fault leaves under the key
  -- of the forwarding state is "blocked" exactly when there is a layer and the interface is not
  -- operationally up, or a protocol of some layer blocks.
  pub interface_run-forwarding :
      (layers : List LayerClass) (row : Ifrow) (m : Smap) {done : List LayerClass} {m' : Smap}
      → AllRun layers
      → interface_run layers row m ≡ some (done, m')
      → smap_get m' (forwarding_key ForwardingKey.forwarding)
        ≡ some (get_state_value (any_layer_blocks row layers))
  unfolding interface_run
  interface_run-forwarding layers row m a h =
      let ((done, last, m1), walked, ends) = >>=-eq-some (run_layers none layers row m) _ h in
      let blocks = run_layers-last none layers row m a walked in
      let key = forwarding_key ForwardingKey.forwarding in
      ground (
        arith,
        ends,
        get-replace m1 key key (interface_state last),
        strcmp_refl key,
        interface_state-blocked last,
        blocks,
      )

-- ===== src/Arbiter/Layer.antt =====
-- One forwarding layer of src/intfd_arbiter.c: when it is blocked, and who owns it.
use ops_intfd.Prelude.{
  ℕ, ◌<◌, ◌≡◌, refl, ◌⊎◌, inl, inr, Bool, true, false, ◌&&◌, ◌||◌, not, Option, none, some, List,
  [], ◌∷◌, arith, All, if◌then◌else◌,
}
use ops_intfd.Schema.{Idl}
use ops_intfd.Database.{Ifrow}
use ops_intfd.Arbiter.{
  ProtoClass, LayerClass, view_of, proto_run, walk_protos, is_prev_blocked, is_oper_up, layer_run,
}

abbrev pub is_set {ℓ} : {A : Type ℓ} → Option A → Bool
is_set none = false
is_set (some _) = true

-- A protocol that is asked and wants the interface blocked.
abbrev pub is_blocking : Ifrow → ProtoClass → Bool
is_blocking row proto = is_set proto.run && view_of proto row

abbrev pub any_blocking : Ifrow → List ProtoClass → Bool
any_blocking row [] = false
any_blocking row (proto ∷ rest) = is_blocking row proto || any_blocking row rest

module _ ⦃idl : Idl⦄ where
  open idl use {proto_none}

  -- The id of the first protocol that blocks.
  abbrev pub first_blocking : Ifrow → List ProtoClass → ℕ
  first_blocking row [] = proto_none
  first_blocking row (proto ∷ rest) =
      if is_blocking row proto then proto.id else first_blocking row rest

  abbrev pub should_block : Option LayerClass → List ProtoClass → Ifrow → Bool
  should_block prev protos row =
      is_prev_blocked prev || not (is_oper_up row) || any_blocking row protos

  abbrev pub should_own : Option LayerClass → List ProtoClass → Ifrow → ℕ
  should_own prev protos row =
      if is_prev_blocked prev || not (is_oper_up row) then proto_none else first_blocking row protos

  -- Identifiers grow along the list, and that of "no protocol" is above them all.
  abbrev pub IsRanked : List ProtoClass → Type 0
  IsRanked [] = Unit
  IsRanked (proto ∷ rest) =
      (proto.id < proto_none) × All (λ (next : ProtoClass). proto.id < next.id) rest × IsRanked rest

  -- An owner that the protocols of a list can have set, or none.
  abbrev pub IsOwner : ℕ → List ProtoClass → Type 0
  IsOwner owner [] = owner ≡ proto_none
  IsOwner owner (proto ∷ rest) =
      ((is_set proto.run ≡ true) × (owner ≡ proto.id)) ⊎ IsOwner owner rest

  -- What holds of a layer between two runs.
  pub record IsSettled (layer : LayerClass) : Type 0 where
    pub owned : IsOwner layer.owner layer.protos
    pub open_unowned : layer.blocked ≡ false → layer.owner ≡ proto_none

  walk-blocked :
      (protos : List ProtoClass) (layer : LayerClass) (row : Ifrow)
      → let run = walk_protos protos layer row in
        (run.0 ≡ any_blocking row protos) × (run.1.blocked ≡ any_blocking row protos)
  unfolding walk_protos proto_run
  walk-blocked [] layer row = (refl, refl)
  walk-blocked (proto ∷ rest) layer row = ground (
    arith,
    walk-blocked rest layer row,
    walk-blocked rest (record layer { owner = proto_none; blocked = false }) row,
  )

  below_owner :
      (k owner : ℕ) (protos : List ProtoClass)
      → k < proto_none
      → All (λ (next : ProtoClass). k < next.id) protos
      → IsOwner owner protos
      → k < owner
  below_owner k owner [] h a o = omega arith
  below_owner k owner (proto ∷ rest) h a (inl o) = ground arith
  below_owner k owner (proto ∷ rest) h a (inr o) = below_owner k owner rest h a.1 o

  walk-owner :
      (protos : List ProtoClass) (layer : LayerClass) (row : Ifrow)
      → IsRanked protos
      → (layer.blocked ≡ true → IsOwner layer.owner protos)
      → (walk_protos protos layer row).1.owner ≡ first_blocking row protos
  unfolding walk_protos proto_run
  walk-owner [] layer row r o = refl
  walk-owner (proto ∷ rest) layer row r o = ground (
    arith,
    walk-owner rest layer row r.2,
    walk-owner rest (record layer { owner = proto_none; blocked = false }) row r.2,
    below_owner proto.id layer.owner rest r.0 r.1,
  )

  first_blocking-IsOwner :
      (row : Ifrow) (protos : List ProtoClass) → IsOwner (first_blocking row protos) protos
  first_blocking-IsOwner row [] = refl
  first_blocking-IsOwner row (proto ∷ rest) = ground (arith, first_blocking-IsOwner row rest)

  none-IsOwner : (protos : List ProtoClass) → IsOwner proto_none protos
  none-IsOwner [] = refl
  none-IsOwner (proto ∷ rest) = inr (none-IsOwner rest)

  -- Whatever state an earlier interface left in the layer, a run answers that the layer is blocked,
  -- and leaves it blocked, exactly when the previous layer is blocked, the interface is not
  -- operationally up, or some protocol of the layer that is run blocks.
  pub layer_run-blocked :
      (prev : Option LayerClass) (layer : LayerClass) (row : Ifrow)
      → let run = layer_run prev layer row in
        (run.0 ≡ should_block prev layer.protos row)
        × (run.1.blocked ≡ should_block prev layer.protos row)
  unfolding layer_run
  layer_run-blocked prev layer row = ground (arith, walk-blocked layer.protos layer row)

  -- From a settled layer whose protocols are ranked, the owner after a run is the first protocol of
  -- the list that blocks, and there is none if the previous layer is blocked or the interface is
  -- not operationally up.
  pub layer_run-owner :
      (prev : Option LayerClass) (layer : LayerClass) (row : Ifrow)
      → IsRanked layer.protos
      → IsSettled layer
      → (layer_run prev layer row).1.owner ≡ should_own prev layer.protos row
  unfolding layer_run
  layer_run-owner prev layer row r s =
      ground (arith, walk-owner layer.protos layer row r (λ b. s.owned))

  walk-same :
      (protos : List ProtoClass) (layer : LayerClass) (row : Ifrow)
      → let run = (walk_protos protos layer row).1 in
        (run.id ≡ layer.id) × (run.protos ≡ layer.protos) × (run.run ≡ layer.run)
  unfolding walk_protos proto_run
  walk-same [] layer row = (refl, refl, refl)
  walk-same (proto ∷ rest) layer row = ground (
    arith,
    walk-same rest layer row,
    walk-same rest (record layer { owner = proto_none; blocked = false }) row,
  )

  pub layer_run-same :
      (prev : Option LayerClass) (layer : LayerClass) (row : Ifrow)
      → let run = (layer_run prev layer row).1 in
        (run.id ≡ layer.id) × (run.protos ≡ layer.protos) × (run.run ≡ layer.run)
  unfolding layer_run
  layer_run-same prev layer row = ground (arith, walk-same layer.protos layer row)

  should_own-IsOwner :
      (prev : Option LayerClass) (protos : List ProtoClass) (row : Ifrow)
      → IsOwner (should_own prev protos row) protos
  should_own-IsOwner prev protos row =
      ground (arith, first_blocking-IsOwner row protos, none-IsOwner protos)

  any_blocking-none :
      (row : Ifrow) (protos : List ProtoClass)
      → any_blocking row protos ≡ false
      → first_blocking row protos ≡ proto_none
  any_blocking-none row [] h = refl
  any_blocking-none row (proto ∷ rest) h = ground (arith, any_blocking-none row rest)

  -- A run leaves a settled layer settled, with the same protocols.
  pub layer_run-IsSettled :
      (prev : Option LayerClass) (layer : LayerClass) (row : Ifrow)
      → IsRanked layer.protos
      → IsSettled layer
      → IsSettled (layer_run prev layer row).1
  layer_run-IsSettled prev layer row r s =
      let (same_id, same_protos, same_run) = layer_run-same prev layer row in
      let owner = layer_run-owner prev layer row r s in
      record {
        owned = rw (owner, same_protos) (should_own-IsOwner prev layer.protos row);
        open_unowned = λ b.
            ground (arith, layer_run-blocked prev layer row, any_blocking-none row layer.protos);
      }

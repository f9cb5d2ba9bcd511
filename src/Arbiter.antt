-- ===== src/Arbiter.antt =====
-- src/intfd_arbiter.c: which forwarding layers of an interface are blocked and by which protocol.
-- A `while` loop over a linked list is a recursion on the list; `next` and `prev` are the
-- neighbours in it. The layers are global: what one interface leaves in them, the next one finds.
pub mod Layer
pub mod Chain
pub mod Registered
pub mod Column
mod Tests
use ops_intfd.Prelude.{
  ℕ, Bool, true, false, ◌&&◌, ◌||◌, not, Option, none, some, List, [], ◌∷◌, ltb, ◌==◌,
  if◌then◌else◌, ◌>>=◌,
}
use ops_intfd.CString.{CString, str_eq, is_str}
use ops_intfd.Smap.{Smap, smap_get, smap_replace, smap_remove}
use ops_intfd.Schema.{Idl, HwConfigKey, ForwardingKey}
use ops_intfd.Database.{Ifrow}

-- The function pointers `run`: each is null or the one function of its kind.
pub data ProtoRun : Type 0 where
  arbiter_proto_run : ProtoRun

pub data LayerRun : Type 0 where
  arbiter_layer_run : LayerRun

-- struct intfd_arbiter_proto_class; its `layer` is the layer whose list it stands in.
pub record ProtoClass : Type 0 where
  pub id : ℕ
  pub run : Option ProtoRun
  pub get_state : Option (Ifrow → Bool)

-- struct intfd_arbiter_layer_class
pub record LayerClass : Type 0 where
  pub id : ℕ
  pub owner : ℕ
  pub protos : List ProtoClass
  pub blocked : Bool
  pub run : Option LayerRun

unfoldable pub attach_proto : List ProtoClass → ProtoClass → List ProtoClass
attach_proto [] proto = proto ∷ []
attach_proto (node ∷ rest) proto = node ∷ attach_proto rest proto

unfoldable pub attach_layer : List LayerClass → LayerClass → List LayerClass
attach_layer [] layer = layer ∷ []
attach_layer (node ∷ rest) layer = node ∷ attach_layer rest layer

-- block = (proto->get_state) ? proto->get_state(ifrow) : false
abbrev pub view_of : ProtoClass → Ifrow → Bool
view_of proto row = elim proto.get_state [ none ↦ false | some get ↦ get row ]

module _ ⦃idl : Idl⦄ where
  open idl use {
    hw_config_key, forwarding_key, enable_true, bond_state_key, bond_up, forwarding_true,
    forwarding_false, protocol_lacp, proto_none, proto_lacp, layer_aggregation,
  }

  unfoldable pub get_proto_name : ℕ → Option CString
  get_proto_name proto = if proto == proto_lacp then some protocol_lacp else none

  unfoldable pub get_layer_key : ℕ → Option CString
  get_layer_key layer =
      if layer == layer_aggregation
      then some (forwarding_key ForwardingKey.aggregation_forwarding)
      else none

  unfoldable pub get_layer_owner_key : ℕ → Option CString
  get_layer_owner_key layer =
      if layer == layer_aggregation
      then some (forwarding_key ForwardingKey.aggregation_blocked_reason)
      else none

  unfoldable pub get_state_value : Bool → CString
  get_state_value blocked = if blocked then forwarding_false else forwarding_true

  -- Returns the protocol's view, and the layer as the call leaves it.
  unfoldable pub proto_run : ProtoClass → LayerClass → Ifrow → Bool × LayerClass
  proto_run proto layer row =
      let block = view_of proto row in
      (
        block,
        if block
            then (if layer.blocked
                then (if ltb proto.id layer.owner then record layer { owner = proto.id } else layer)
                else record layer { blocked = true; owner = proto.id })
            else (if layer.blocked
                then (if proto.id == layer.owner
                    then record layer { owner = proto_none; blocked = false }
                    else layer)
                else layer),
      )

  abbrev pub call_proto : ProtoRun → ProtoClass → LayerClass → Ifrow → Bool × LayerClass
  call_proto arbiter_proto_run = proto_run

  -- The loop over the protocols of a layer, and what follows it.
  unfoldable pub walk_protos : List ProtoClass → LayerClass → Ifrow → Bool × LayerClass
  walk_protos [] layer row = (false, record layer { blocked = false; owner = proto_none })
  walk_protos (proto ∷ rest) layer row = elim proto.run [
    | none ↦ walk_protos rest layer row
    | some run ↦
        let (block, layer') = call_proto run proto layer row in
        elim block [ true ↦ (true, layer') | false ↦ walk_protos rest layer' row ]
  ]

  -- layer->prev && layer->prev->blocked
  abbrev pub is_prev_blocked : Option LayerClass → Bool
  is_prev_blocked none = false
  is_prev_blocked (some prev) = prev.blocked

  -- oper_state && STR_EQ(oper_state, "true")
  abbrev pub is_oper_up : Ifrow → Bool
  is_oper_up row =
      is_str (smap_get row.hw_intf_config (hw_config_key HwConfigKey.enable)) enable_true

  unfoldable pub layer_run : Option LayerClass → LayerClass → Ifrow → Bool × LayerClass
  unfolding walk_protos
  layer_run prev layer row =
      if is_prev_blocked prev
      then (true, record layer { blocked = true; owner = proto_none })
      else if not (is_oper_up row)
      then (true, record layer { blocked = true; owner = proto_none })
      else walk_protos layer.protos layer row

  -- smap_replace and smap_remove fault at a null key or value.
  unfoldable pub replace_checked : Smap → Option CString → Option CString → Option Smap
  replace_checked m none v = none
  replace_checked m (some k) none = none
  replace_checked m (some k) (some v) = some (smap_replace m k v)

  unfoldable pub remove_checked : Smap → Option CString → Option Smap
  remove_checked m none = none
  remove_checked m (some k) = some (smap_remove m k)

  -- What interface_run writes to the column for one layer that has run.
  unfoldable pub publish_layer : LayerClass → Smap → Option Smap
  unfolding replace_checked remove_checked get_proto_name get_layer_key get_layer_owner_key
  publish_layer layer m =
      let layer_key = get_layer_key layer.id in
      let layer_owner_key = get_layer_owner_key layer.id in
      let state_value = some (get_state_value layer.blocked) in
      if not (layer.owner == proto_none)
      then (do
        m' ← replace_checked m layer_key state_value
        replace_checked m' layer_owner_key (get_proto_name layer.owner))
      else if layer.blocked
      then (do m' ← remove_checked m layer_key; remove_checked m' layer_owner_key)
      else (do m' ← replace_checked m layer_key state_value; remove_checked m' layer_owner_key)

  abbrev pub call_layer : Option LayerClass → LayerClass → Ifrow → LayerClass
  call_layer prev layer row = elim layer.run [
    | none ↦ layer
    | some arbiter_layer_run ↦ (layer_run prev layer row).1
  ]

  -- The loop of interface_run: the layers afterwards, the last of them, and the column.
  unfoldable pub run_layers :
      Option LayerClass
      → List LayerClass
      → Ifrow
      → Smap
      → Option (List LayerClass × Option LayerClass × Smap)
  run_layers prev [] row m = some ([], prev, m)
  run_layers prev (layer ∷ rest) row m =
      let layer' = call_layer prev layer row in
      do
        m' ← publish_layer layer' m
        (done, last, m'') ← run_layers (some layer') rest row m'
        some (layer' ∷ done, last, m'')

  abbrev pub interface_state : Option LayerClass → CString
  interface_state none = forwarding_true
  interface_state (some last) = get_state_value last.blocked

  -- The layers as they are left, and the column `forwarding_state`; `none` is a fault.
  unfoldable pub interface_run : List LayerClass → Ifrow → Smap → Option (List LayerClass × Smap)
  unfolding run_layers
  interface_run layers row m = do
    (done, last, m') ← run_layers none layers row m
    some (done, smap_replace m' (forwarding_key ForwardingKey.forwarding) (interface_state last))

  unfoldable pub lacp_state : Ifrow → Bool
  lacp_state row = elim (smap_get row.bond_status bond_state_key) [
    | none ↦ false
    | some bond_status ↦ not (str_eq bond_status bond_up)
  ]

  -- The allocations of xzalloc succeed: it aborts the program if not.
  unfoldable pub layer_aggregation_register : List LayerClass → List LayerClass
  unfolding attach_layer attach_proto
  layer_aggregation_register layer_head =
      let lacp : ProtoClass = record {
        id = proto_lacp;
        run = some arbiter_proto_run;
        get_state = some lacp_state;
      } in
      let aggregation : LayerClass = record {
        id = layer_aggregation;
        owner = proto_none;
        protos = attach_proto [] lacp;
        blocked = false;
        run = some arbiter_layer_run;
      } in
      attach_layer layer_head aggregation

  unfoldable pub arbiter_init : List LayerClass
  unfolding layer_aggregation_register
  arbiter_init = layer_aggregation_register []

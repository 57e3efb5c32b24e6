-- ===== src/Sim/Fabric.antt =====
-- include/atarix/sim_fabric.h and src/sim/sim_fabric.c: the table of attached nodes.
pub mod Laws
use atarix.Prelude.{
  ℕ, ◌+◌, Bool, true, false, Option, none, some, List, [], ◌∷◌, take, set, replicate, leb, ◌==◌,
  if◌then◌else◌,
}
use atarix.Sim.Node.{SimNode, Store}

abbrev pub max_nodes : ℕ
max_nodes = 256

pub data FabricStatus : Type 0 where
  ok null duplicate_node full not_found : FabricStatus

pub record FabricSlot : Type 0 where
  pub node_id : ℕ
  pub node : Option ℕ

pub record SimFabric : Type 0 where
  pub slots : List FabricSlot
  pub node_count : ℕ

abbrev empty_slot : FabricSlot
empty_slot = record { node_id = 0; node = none }

-- `memset` of the object that the pointer addresses.
unfoldable pub fabric_init : Option SimFabric → Option SimFabric
fabric_init none = none
fabric_init (some old) = some (record { slots = replicate max_nodes empty_slot; node_count = 0 })

-- The loops of `attach` and `lookup` over the slots in use.
unfoldable pub holds_id : List FabricSlot → ℕ → Bool
holds_id [] id = false
holds_id (slot ∷ slots) id = if slot.node_id == id then true else holds_id slots id

unfoldable pub lookup_slot : List FabricSlot → ℕ → Option ℕ
lookup_slot [] id = none
lookup_slot (slot ∷ slots) id = if slot.node_id == id then slot.node else lookup_slot slots id

-- The status, and the fabric object after the call. `node->node_id` is read in the store.
unfoldable pub fabric_attach : Store → Option SimFabric → Option ℕ → FabricStatus × Option SimFabric
fabric_attach nodes none p = (null, none)
fabric_attach nodes (some fabric) none = (null, some fabric)
fabric_attach nodes (some fabric) (some p) =
    if holds_id (take fabric.node_count fabric.slots) (nodes p).node_id
    then (duplicate_node, some fabric)
    else if leb max_nodes fabric.node_count
    then (full, some fabric)
    else (
      ok,
      some (record {
        slots =
            set fabric.slots fabric.node_count
              (record { node_id = (nodes p).node_id; node = some p });
        node_count = fabric.node_count + 1;
      }),
    )

unfoldable pub fabric_lookup : Option SimFabric → ℕ → Option ℕ
fabric_lookup none node_id = none
fabric_lookup (some fabric) node_id = lookup_slot (take fabric.node_count fabric.slots) node_id

unfoldable pub fabric_node_count : Option SimFabric → ℕ
fabric_node_count none = 0
fabric_node_count (some fabric) = fabric.node_count

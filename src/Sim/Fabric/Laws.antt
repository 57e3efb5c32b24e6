-- ===== src/Sim/Fabric/Laws.antt =====
-- The fabric's table is a finite map from node ids to nodes, of at most 256 entries.
use atarix.Prelude.{
  ℕ, ◌+◌, ◌≤◌, ◌<◌, ◌≡◌, ◌≢◌, ◌↔◌, ◌⊎◌, refl, ◌∙◌, sym, subst, inl, inr, true, false, none, some,
  List, [], ◌∷◌, ◌++◌, take, set, take-set, replicate, length, length-set, length-replicate, ◌==◌,
  arith, if◌then◌else◌,
}
use atarix.Sim.Node.{Store}
use atarix.Sim.Fabric.{
  max_nodes, FabricStatus, ok, duplicate_node, full, FabricSlot, SimFabric, empty_slot, fabric_init,
  holds_id, lookup_slot, fabric_attach, fabric_lookup,
}

-- No id stands twice, and each slot in use points to a node.
abbrev pub Distinct : List FabricSlot → Type 0
Distinct [] = Unit
Distinct (slot ∷ slots) =
    (holds_id slots slot.node_id ≡ false) × (slot.node ≢ none) × Distinct slots

pub record IsFabric (f : SimFabric) : Type 0 where
  pub size : length f.slots ≡ max_nodes
  pub count : f.node_count ≤ max_nodes
  pub distinct : Distinct (take f.node_count f.slots)

abbrev pub used : SimFabric → List FabricSlot
used f = take f.node_count f.slots

holds-append :
    (xs : List FabricSlot) (s : FabricSlot) (id : ℕ)
    → holds_id (xs ++ s ∷ []) id ≡ (if s.node_id == id then true else holds_id xs id)
unfolding holds_id
holds-append [] s id = refl
holds-append (x ∷ xs) s id = ground (arith, holds-append xs s id)

lookup-append :
    (xs : List FabricSlot) (s : FabricSlot) (id : ℕ)
    → holds_id xs s.node_id ≡ false
    → lookup_slot (xs ++ s ∷ []) id ≡ (if s.node_id == id then s.node else lookup_slot xs id)
unfolding lookup_slot holds_id
lookup-append [] s id h = refl
lookup-append (x ∷ xs) s id h = ground (arith, lookup-append xs s id)

Distinct-append :
    (xs : List FabricSlot) (s : FabricSlot)
    → Distinct xs
    → holds_id xs s.node_id ≡ false
    → s.node ≢ none
    → Distinct (xs ++ s ∷ [])
unfolding holds_id
Distinct-append [] s d h n = (refl, n, tt)
Distinct-append (x ∷ xs) s d h n =
    (ground (arith, holds-append xs s x.node_id), d.1, Distinct-append xs s d.2 (ground arith) n)

-- A slot in use is found, since its node is not NULL.
holds_iff-lookup :
    (xs : List FabricSlot) (id : ℕ)
    → Distinct xs
    → (holds_id xs id ≡ true) ↔ (lookup_slot xs id ≢ none)
unfolding holds_id lookup_slot
holds_iff-lookup [] id d = ground arith
holds_iff-lookup (x ∷ xs) id d = ground (arith, holds_iff-lookup xs id d.2)

abbrev new_slot : Store → ℕ → FabricSlot
new_slot nodes p = record { node_id = (nodes p).node_id; node = some p }

attached : Store → SimFabric → ℕ → SimFabric
attached nodes f p = record {
  slots = set f.slots f.node_count (new_slot nodes p);
  node_count = f.node_count + 1;
}

used-attached :
    (nodes : Store) (f : SimFabric) (p : ℕ)
    → f.node_count < length f.slots
    → used (attached nodes f p) ≡ used f ++ new_slot nodes p ∷ []
unfolding attached
used-attached nodes f p h = take-set f.slots f.node_count (new_slot nodes p) h

attach_ok :
    (nodes : Store) (f g : SimFabric) (p : ℕ)
    → fabric_attach nodes (some f) (some p) ≡ (ok, some g)
    → (g ≡ attached nodes f p)
      × (holds_id (used f) (nodes p).node_id ≡ false)
      × (f.node_count < max_nodes)
unfolding fabric_attach attached
attach_ok nodes f g p h = ground arith

-- The status of an attachment: a second node of an id is refused, then one past the 256th; a
-- refusal leaves the table as it was.
pub fabric_attach_statuses :
    (nodes : Store) (f : SimFabric) (p : ℕ)
    → IsFabric f
    → let (status, after) = fabric_attach nodes (some f) (some p) in
      let present = fabric_lookup (some f) (nodes p).node_id in
      ((status ≡ duplicate_node) ↔ (present ≢ none))
      × ((status ≡ full) ↔ (present ≡ none) × (f.node_count ≡ max_nodes))
      × ((status ≡ ok) ↔ (present ≡ none) × (f.node_count < max_nodes))
      × ((status ≡ ok) ⊎ (after ≡ some f))
unfolding fabric_attach fabric_lookup
fabric_attach_statuses nodes f p v =
    ground (arith, holds_iff-lookup (used f) (nodes p).node_id v.distinct, v.count)

-- After an attachment the node's id finds the node, and every other id finds what it found before.
pub lookup-attach :
    (nodes : Store) (f g : SimFabric) (p id : ℕ)
    → IsFabric f
    → fabric_attach nodes (some f) (some p) ≡ (ok, some g)
    → fabric_lookup (some g) id
      ≡ (if (nodes p).node_id == id then some p else fabric_lookup (some f) id)
unfolding fabric_lookup
lookup-attach nodes f g p id v h =
    let (e, fresh, room) = attach_ok nodes f g p h in
    let in_range : f.node_count < length f.slots = omega (arith, v.size) in
    rw (e, used-attached nodes f p in_range) (lookup-append (used f) (new_slot nodes p) id fresh)

attach_ok-IsFabric :
    (nodes : Store) (f g : SimFabric) (p : ℕ)
    → IsFabric f
    → fabric_attach nodes (some f) (some p) ≡ (ok, some g)
    → IsFabric g
attach_ok-IsFabric nodes f g p v h =
    let (e, fresh, room) = attach_ok nodes f g p h in
    let in_range : f.node_count < length f.slots = omega (arith, v.size) in
    subst IsFabric (sym e) (record {
      size = unfold attached in (length-set f.slots f.node_count (new_slot nodes p) ∙ v.size);
      count = unfold attached in omega arith;
      distinct =
          rw (used-attached nodes f p in_range)
            (Distinct-append (used f) (new_slot nodes p) v.distinct fresh (λ e. cc));
    })

-- What attachments, refused or not, by nodes that may change in between, make of a fresh fabric.
pub data Reach : SimFabric → Type 0 where
  fresh : {f : SimFabric} (old : SimFabric) → fabric_init (some old) ≡ some f → Reach f
  attach :
      {f g : SimFabric} (nodes : Store) (p : ℕ) (status : FabricStatus)
      → Reach f
      → fabric_attach nodes (some f) (some p) ≡ (status, some g)
      → Reach g

init-IsFabric : (old f : SimFabric) → fabric_init (some old) ≡ some f → IsFabric f
unfolding fabric_init
init-IsFabric old f h =
    let e : f ≡ record { slots = replicate max_nodes empty_slot; node_count = 0 } = cc in
    subst IsFabric (sym e)
      (record { size = length-replicate max_nodes empty_slot; count = omega arith; distinct = tt })

FabricStatus-ok : (s : FabricStatus) → (s ≡ ok) ⊎ (s ≢ ok)
FabricStatus-ok s = ground arith

attach_refused :
    (nodes : Store) (f g : SimFabric) (p : ℕ) (status : FabricStatus)
    → status ≢ ok
    → fabric_attach nodes (some f) (some p) ≡ (status, some g)
    → g ≡ f
unfolding fabric_attach
attach_refused nodes f g p status ne h = ground arith

attach-IsFabric :
    (nodes : Store) (f g : SimFabric) (p : ℕ) (status : FabricStatus)
    → IsFabric f
    → fabric_attach nodes (some f) (some p) ≡ (status, some g)
    → IsFabric g
attach-IsFabric nodes f g p status v h = elim (FabricStatus-ok status) [
  | inl e ↦ attach_ok-IsFabric nodes f g p v (cc)
  | inr ne ↦ subst IsFabric (sym (attach_refused nodes f g p status ne h)) v
]

-- However nodes are attached, the table never holds an id twice, an empty slot in use, or more
-- than 256 nodes.
pub Reach-IsFabric : {f : SimFabric} → Reach f → IsFabric f
Reach-IsFabric (fresh old h) = init-IsFabric old _ h
Reach-IsFabric (attach {f} {g} nodes p status r h) =
    attach-IsFabric nodes f g p status (Reach-IsFabric r) h

-- ===== src/World/Edges.antt =====
-- server/src/modules/world/world.service.ts: the edges join nodes, and what is open stays open.
use mmorpg_design_documents.Base.{
  ◌≡◌, ◌||◌, Bool, refl, true, List, [], ◌∷◌, String, Result, if_elim, inl, inr, Bool-cases,
  Option-cases, arith,
}
use mmorpg_design_documents.Base.Key.{string_eq, ◌==◌}
use mmorpg_design_documents.Base.Dict.{Dict, lookup, insert, lookup-insert}
use mmorpg_design_documents.Base.Lists.{All, All-append, any}
use mmorpg_design_documents.World.{
  WorldNode, WorldEdge, WorldService, WorldError, has_node, WorldSeedData, is_there, set_nodes,
  load_seed, add_node, add_edge, unlock_node, is_unlocked,
}

-- Both ends of an edge are nodes of the world.
pub record Joined (s : WorldService) (e : WorldEdge) : Type 0 where
  pub from : has_node e.from_node_id s ≡ true
  pub to : has_node e.to_node_id s ≡ true

abbrev pub IsClosed : WorldService → Type 0
IsClosed s = All (Joined s) s.edges

pub data Request : Type 0 where
  node : WorldNode → Request
  edge : WorldEdge → Request
  unlock : String → Request
  seed : WorldSeedData → Request

unfoldable pub apply : Request → WorldService → WorldService
apply (node n) s = (add_node n s).1
apply (edge e) s = (add_edge e s).1
apply (unlock id) s = (unlock_node id s).1
apply (seed data') s = load_seed data'

unfoldable pub run : List Request → WorldService → WorldService
run [] s = s
run (r ∷ rs) s = run rs (apply r s)

-- Whether a node of the list has the id.
abbrev pub names : String → List WorldNode → Bool
names id = any (λ n. id == n.id)

-- A seed that is loaded has the nodes that its edges join.
abbrev pub Seeded : Request → Type 0
Seeded (node n) = Unit
Seeded (edge e) = Unit
Seeded (unlock id) = Unit
Seeded (seed data') =
    All (λ e. (names e.from_node_id data'.nodes ≡ true) × (names e.to_node_id data'.nodes ≡ true))
      data'.edges

-- A new or changed node under a key loses no key.
kept_node :
    (k j : String) (n : WorldNode) (s : WorldService)
    → has_node j s ≡ true
    → has_node j (record s { nodes = insert k n s.nodes }) ≡ true
kept_node k j n s h = elim (Bool-cases (j == k)) [
  | inl same ↦ rw (lookup-insert j k n s.nodes, same) refl
  | inr other ↦ rw (lookup-insert j k n s.nodes, other) h
]

Joined-keep :
    (s s' : WorldService) (es : List WorldEdge)
    → ((j : String) → has_node j s ≡ true → has_node j s' ≡ true)
    → All (Joined s) es
    → All (Joined s') es
Joined-keep s s' [] keeps h = tt
Joined-keep s s' (e ∷ es) keeps h = (
  record { from = keeps e.from_node_id h.0.from; to = keeps e.to_node_id h.0.to },
  Joined-keep s s' es keeps h.1,
)

add_node-IsClosed : (n : WorldNode) (s : WorldService) → IsClosed s → IsClosed (add_node n s).1
unfolding add_node
add_node-IsClosed n s h =
    if_elim (λ (r : Result WorldError WorldNode × WorldService). IsClosed r.1) (has_node n.id s) _ _
      (λ _. h) (λ _. Joined-keep s _ s.edges (λ j. kept_node n.id j n s) h)

add_edge-IsClosed : (e : WorldEdge) (s : WorldService) → IsClosed s → IsClosed (add_edge e s).1
unfolding add_edge
add_edge-IsClosed e s h = elim (Bool-cases (has_node e.from_node_id s)) [
  | inr missing ↦ rw missing h
  | inl from ↦ elim (Bool-cases (has_node e.to_node_id s)) [
    | inr missing ↦ rw (from, missing) h
    | inl to ↦
        rw (from, to)
          (Joined-keep s _ _ (λ j k. k)
            (All-append (Joined s) s.edges (e ∷ []) h (record { from = from; to = to }, tt)))
  ]
]

unlock_node-IsClosed : (id : String) (s : WorldService) → IsClosed s → IsClosed (unlock_node id s).1
unfolding unlock_node
unlock_node-IsClosed id s h = elim (Option-cases (lookup id s.nodes)) [
  | inl e ↦ rw (e, unlock_node) h
  | inr (n, e) ↦
      rw (e, unlock_node)
        (if_elim (λ (r : Result WorldError WorldNode × WorldService). IsClosed r.1) (is_unlocked n)
          _ _ (λ _. h) (λ _. Joined-keep s _ s.edges (λ j. kept_node id j _ s) h))
]

has_node-set_nodes :
    (id : String) (ns : List WorldNode) (d : Dict String WorldNode) (es : List WorldEdge)
    → (names id ns || is_there (lookup id d)) ≡ true
    → has_node id (record { nodes = set_nodes ns d; edges = es }) ≡ true
unfolding set_nodes
has_node-set_nodes id [] d es h = h
has_node-set_nodes id (n ∷ ns) d es h = has_node-set_nodes id ns (insert n.id n d) es kept
  where
    kept : (names id ns || is_there (lookup id (insert n.id n d))) ≡ true
    kept = elim (Bool-cases (id == n.id)) [
      | inl e ↦ rw (lookup-insert id n.id n d, e) (ground arith)
      | inr e ↦ rw (lookup-insert id n.id n d, e) (rw e at h)
    ]

load_seed-IsClosed :
    (data' : WorldSeedData) (s : WorldService) → Seeded (seed data') → IsClosed (load_seed data')
unfolding load_seed
load_seed-IsClosed data' s h = all_joined data'.edges h
  where
    there : (id : String) → names id data'.nodes ≡ true → has_node id (load_seed data') ≡ true
    there id h = has_node-set_nodes id data'.nodes [] data'.edges (rw h refl)

    all_joined :
        (es : List WorldEdge)
        → All
            (λ e.
              (names e.from_node_id data'.nodes ≡ true) × (names e.to_node_id data'.nodes ≡ true))
            es
        → All (Joined (load_seed data')) es
    all_joined [] h = tt
    all_joined (e ∷ es) h = (
      record { from = there e.from_node_id h.0.0; to = there e.to_node_id h.0.1 },
      all_joined es h.1,
    )

apply-IsClosed : (r : Request) (s : WorldService) → Seeded r → IsClosed s → IsClosed (apply r s)
unfolding apply
apply-IsClosed (node n) s k h = add_node-IsClosed n s h
apply-IsClosed (edge e) s k h = add_edge-IsClosed e s h
apply-IsClosed (unlock id) s k h = unlock_node-IsClosed id s h
apply-IsClosed (seed data') s k h = load_seed-IsClosed data' s k

-- Through any history of calls, refused or not, every edge joins two nodes of the world if every
-- edge did at the start and every seed that is loaded has the nodes that its edges join.
pub run-IsClosed :
    (rs : List Request) (s : WorldService) → All Seeded rs → IsClosed s → IsClosed (run rs s)
unfolding run
run-IsClosed [] s k h = h
run-IsClosed (r ∷ rs) s k h = run-IsClosed rs (apply r s) k.1 (apply-IsClosed r s k.0 h)

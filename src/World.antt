-- ===== src/World.antt =====
-- server/src/modules/world/world.service.ts: the map of the world. The seed that the constructor
-- loads is an argument.
pub mod Edges
mod Tests
use mmorpg_design_documents.Base.{
  ℕ, Bool, true, false, ◌||◌, not, Option, none, some, List, [], ◌∷◌, ◌++◌, String, Result, ok, err,
  if◌then◌else◌,
}
use mmorpg_design_documents.Base.Int.{ℤ}
use mmorpg_design_documents.Base.Key.{string_eq, ◌==◌}
use mmorpg_design_documents.Base.Dict.{Dict, lookup, insert, values}
use mmorpg_design_documents.Base.Lists.{keep, length}

pub data WorldNodeType : Type 0 where
  universe planet plane region settlement_zone : WorldNodeType

pub data UnlockStatus : Type 0 where
  locked unlocked : UnlockStatus

pub record WorldNode : Type 0 where
  pub id : String
  pub name : String
  pub node_type : WorldNodeType
  pub parent_id : Option String
  pub environmental_tags : List String
  pub travel_cost : ℤ
  pub unlock_status : UnlockStatus

pub record WorldEdge : Type 0 where
  pub from_node_id : String
  pub to_node_id : String
  pub travel_time_minutes : ℤ
  pub currency_cost : ℤ
  pub hazard_level : ℤ

pub record WorldSeedData : Type 0 where
  pub nodes : List WorldNode
  pub edges : List WorldEdge

pub record WorldService : Type 0 where
  pub nodes : Dict String WorldNode
  pub edges : List WorldEdge

pub data WorldError : Type 0 where
  already_exists source_missing target_missing not_found : String → WorldError

-- `nodes.set(node.id, node)` for one node after another.
pub set_nodes : List WorldNode → Dict String WorldNode → Dict String WorldNode
set_nodes [] d = d
set_nodes (n ∷ ns) d = set_nodes ns (insert n.id n d)

pub load_seed : WorldSeedData → WorldService
unfolding set_nodes
load_seed data' = record { nodes = set_nodes data'.nodes []; edges = data'.edges }

pub get_all_nodes : WorldService → List WorldNode
get_all_nodes s = values s.nodes

unfoldable pub get_node_by_id : String → WorldService → Option WorldNode
get_node_by_id id s = lookup id s.nodes

abbrev same_type : WorldNodeType → WorldNodeType → Bool
same_type universe universe = true
same_type planet planet = true
same_type plane plane = true
same_type region region = true
same_type settlement_zone settlement_zone = true
same_type _ _ = false

pub get_nodes_by_type : WorldNodeType → WorldService → List WorldNode
get_nodes_by_type t s = keep (λ n. same_type n.node_type t) (values s.nodes)

abbrev is_child_of : String → WorldNode → Bool
is_child_of parent n = elim n.parent_id [ none ↦ false | some p ↦ p == parent ]

pub get_child_nodes : String → WorldService → List WorldNode
get_child_nodes parent_id s = keep (is_child_of parent_id) (values s.nodes)

pub get_connections : String → WorldService → List WorldEdge
get_connections node_id s = keep (λ e. e.from_node_id == node_id || e.to_node_id == node_id) s.edges

unfoldable pub get_outgoing_connections : String → WorldService → List WorldEdge
get_outgoing_connections node_id s = keep (λ e. e.from_node_id == node_id) s.edges

abbrev pub is_there : Option WorldNode → Bool
is_there none = false
is_there (some n) = true

-- `nodes.has(id)`
abbrev pub has_node : String → WorldService → Bool
has_node id s = is_there (lookup id s.nodes)

pub add_node : WorldNode → WorldService → Result WorldError WorldNode × WorldService
add_node n s =
    if has_node n.id s
    then (err (already_exists n.id), s)
    else (ok n, record s { nodes = insert n.id n s.nodes })

pub add_edge : WorldEdge → WorldService → Result WorldError WorldEdge × WorldService
add_edge e s =
    if not (has_node e.from_node_id s)
    then (err (source_missing e.from_node_id), s)
    else if not (has_node e.to_node_id s)
    then (err (target_missing e.to_node_id), s)
    else (ok e, record s { edges = s.edges ++ e ∷ [] })

abbrev is_unlocked : WorldNode → Bool
is_unlocked n = elim n.unlock_status [ locked ↦ false | unlocked ↦ true ]

-- `triggerType` is only logged.
pub unlock_node : String → WorldService → Result WorldError WorldNode × WorldService
unlock_node node_id s = elim (lookup node_id s.nodes) [
  | none ↦ (err (not_found node_id), s)
  | some n ↦
      let n' : WorldNode = record n { unlock_status = unlocked } in
      if is_unlocked n then (ok n, s) else (ok n', record s { nodes = insert node_id n' s.nodes })
]

pub get_node_count : WorldService → ℕ
get_node_count s = length s.nodes

pub get_edge_count : WorldService → ℕ
get_edge_count s = length s.edges

-- ===== src/World/Tests.antt =====
-- Runs of the world service at concrete inputs.
use mmorpg_design_documents.Base.{◌≡◌, refl, none, List, [], ◌∷◌, String}
use mmorpg_design_documents.Base.Int.{pos}
use mmorpg_design_documents.Base.Key.{string_eq}
use mmorpg_design_documents.Base.Dict.{lookup, insert}
use mmorpg_design_documents.World.{
  region, locked, WorldNode, WorldEdge, WorldService, get_node_count, get_edge_count, add_node,
  add_edge, unlock_node,
}
use mmorpg_design_documents.World.Edges.{
  Request, seed, IsClosed, node, edge, unlock, apply, run, run-IsClosed,
}

abbrev named : String → WorldNode
named id = record {
  id = id;
  name = id;
  node_type = region;
  parent_id = none;
  environmental_tags = [];
  travel_cost = pos 1;
  unlock_status = locked;
}

abbrev between : String → String → WorldEdge
between a b = record {
  from_node_id = a;
  to_node_id = b;
  travel_time_minutes = pos 5;
  currency_cost = pos 1;
  hazard_level = pos 2;
}

abbrev nowhere : WorldService
nowhere = record { nodes = []; edges = [] }

abbrev built : WorldService
built =
    run
      (node (named "hill")
        ∷ node (named "port")
        ∷ edge (between "hill" "port")
        ∷ edge (between "port" "moon")
        ∷ unlock "hill"
        ∷ [])
      nowhere

-- The second edge is refused, since it leads to no node.
built_run : (get_node_count built ≡ 2) × (get_edge_count built ≡ 1)
unfolding run apply lookup insert get_node_count get_edge_count add_node add_edge unlock_node
built_run = (refl, refl)

abbrev history : List Request
history =
    seed (record { nodes = named "hill" ∷ named "lake" ∷ []; edges = between "lake" "hill" ∷ [] })
    ∷ node (named "port")
    ∷ edge (between "hill" "port")
    ∷ edge (between "port" "moon")
    ∷ []

run-IsClosed_example : IsClosed (run history nowhere)
run-IsClosed_example = run-IsClosed history nowhere (((refl, refl), tt), (tt, (tt, (tt, tt)))) tt

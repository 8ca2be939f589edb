-- ===== src/Tests/Graphs.antt =====
-- Graphs and their validation (internal/graph, internal/validate) on a concrete snapshot.
use architecture_rehearsal.Prelude.{
  ◌≡◌, refl, ◌&&◌, ◌||◌, not, String, none, some, List, [], ◌∷◌, All, lookup, insert,
}
use architecture_rehearsal.Graph.{
  Node, Edge, Snapshot, build_index, append_to, index_node, index_edge, index_nodes, index_edges,
}
use architecture_rehearsal.Loader.{ChangeEnvelope, apply_change, is_removed}
use architecture_rehearsal.Loader.Applied.{has_node, has_edge, apply_change-graph}
use architecture_rehearsal.Graph.Walk.{walk_forward, walk_reverse, walk_from, walk, expand, visit}
use architecture_rehearsal.Graph.Fuel.{walks_return}
use architecture_rehearsal.Graph.Reach.{IsNear, walks_reach}

abbrev node : String → String → Node
node id kind = record {
  id = id;
  kind = kind;
  name = id;
  namespace = "default";
  attributes = [];
  source = "";
  source_ref = "";
}

abbrev edge : String → String → String → Edge
edge from rel to = record { id = ""; from = from; to = to; rel = rel; attrs = [] }

abbrev shop : Snapshot
shop = record {
  id = "snap-1";
  name = "shop";
  source = "";
  phase = "baseline";
  nodes = node "web" "Workload" ∷ node "db" "Workload" ∷ node "vip" "Service" ∷ [];
  edges =
      edge "vip" "ROUTES_TO" "web"
      ∷ edge "web" "DEPENDS_ON" "db"
      ∷ edge "db" "DEPENDS_ON" "web"
      ∷ [];
}

walks_return_example :
    ((order : List String) × (walk_forward (build_index shop) ("vip" ∷ []) none 0 ≡ some order))
    × ((order : List String) × (walk_reverse (build_index shop) ("vip" ∷ []) none 0 ≡ some order))
walks_return_example = walks_return shop ("vip" ∷ []) none 0

abbrev ahead : List String
ahead = "web" ∷ "db" ∷ []

abbrev back : List String
back = "web" ∷ "vip" ∷ "db" ∷ []

walks_reach_example :
    All (IsNear (λ e. e.from) (λ e. e.to) shop.edges none ("web" ∷ []) 8) ahead
    × All (IsNear (λ e. e.to) (λ e. e.from) shop.edges none ("web" ∷ []) 8) back
unfolding walk_forward walk_reverse walk_from walk expand visit build_index append_to index_node
    index_edge index_nodes index_edges lookup insert
walks_reach_example = walks_reach shop ("web" ∷ []) ahead back none 0 refl refl

abbrev drop_db : ChangeEnvelope
drop_db = record {
  kind = "node-failure";
  id = "chg-1";
  title = "drop the database";
  description = "";
  seeds = [];
  facts = [];
  added_nodes = node "db2" "Workload" ∷ [];
  removed_nodes = "db" ∷ [];
  patch_nodes = node "web" "Workload" ∷ [];
  added_edges = edge "web" "DEPENDS_ON" "db2" ∷ [];
}

apply_change-graph_example :
    let proposed = apply_change shop drop_db in
    (has_node "db" proposed.nodes ≡ (
      (has_node "db" shop.nodes && not (is_removed ("db" ∷ []) "db"))
      || has_node "db" drop_db.added_nodes))
    × (has_edge "web" "db" "DEPENDS_ON" proposed.edges ≡ (
        (has_edge "web" "db" "DEPENDS_ON" shop.edges
          && not (is_removed ("db" ∷ []) "web" || is_removed ("db" ∷ []) "db"))
        || has_edge "web" "db" "DEPENDS_ON" drop_db.added_edges))
apply_change-graph_example = apply_change-graph shop drop_db "db" "web" "db" "DEPENDS_ON"

-- ===== src/Tests/Overlays.antt =====
-- A ring of three nodes, and a valid overlay of three in which one node has two parents.
use cmpe275_enterprise_apps.Common.{String, true, false, [], ◌∷◌, some, ◌≡◌, ◌↔◌, refl, arith}
use cmpe275_enterprise_apps.Common.Dict.{find, has_key, put, erase}
use cmpe275_enterprise_apps.Model.Request.{has_id}
use cmpe275_enterprise_apps.Overlay.{
  OverlayConfig, NodeInfo, empty_overlay, set_children, add_node, get_children, get_entry_node,
  first_entry, add_incoming_edge, add_incoming_edges, remove_incoming_edge, remove_incoming_edges,
  remove_id, rebuild_file_ownership_index, index_files, own_files,
}
use cmpe275_enterprise_apps.Overlay.Traversal.{
  CycleState, has_cycle, validate, validate_walks, collect_reachable, visit_all, count_entries,
  files_distinct, insert_all, edges_known, children_known,
}
use cmpe275_enterprise_apps.Overlay.Reachable.{Reaches}
use cmpe275_enterprise_apps.Overlay.Cycles.{Cyclic}
use cmpe275_enterprise_apps.Overlay.Acyclic.{has_cycle_lem}
use cmpe275_enterprise_apps.Overlay.Validation.{validate-Reaches}

abbrev ring : OverlayConfig
ring =
    set_children "C" ("B" ∷ [])
      (set_children "B" ("C" ∷ []) (set_children "A" ("B" ∷ []) empty_overlay))

has_cycle_lem_example :
    (s : CycleState) × (has_cycle 9 ring "A" (false, [], []) ≡ some s)
    × ((s.0 ≡ true) ↔ Cyclic ring "A")
unfolding set_children put
has_cycle_lem_example = has_cycle_lem ring "A" 9 (omega arith)

abbrev node : String → NodeInfo
node id = record {
  node_id = id;
  host = "localhost";
  port = 50051;
  is_entry_node = false;
  owned_files = [];
}

abbrev entry : NodeInfo
entry = record (node "A") { is_entry_node = true; owned_files = "jan.csv" ∷ [] }

abbrev diamond : OverlayConfig
diamond = set_children "B" ("C" ∷ []) (
    set_children "A" ("B" ∷ "C" ∷ [])
      (add_node (node "C") (add_node (node "B") (add_node entry empty_overlay))))

validate-Reaches_example :
    (¬ Cyclic diamond "A")
    × ((x : String) → (has_key x diamond.nodes ≡ true) ↔ Reaches diamond "A" x)
unfolding set_children add_node put find has_key has_id get_entry_node first_entry validate
    validate_walks collect_reachable visit_all has_cycle count_entries files_distinct insert_all
    edges_known children_known get_children add_incoming_edge add_incoming_edges
    remove_incoming_edge remove_incoming_edges remove_id erase rebuild_file_ownership_index
    index_files own_files
validate-Reaches_example = validate-Reaches 9 diamond entry refl refl (omega arith) refl

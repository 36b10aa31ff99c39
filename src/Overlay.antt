-- ===== src/Overlay.antt =====
-- basic/src/model/NodeInfo.hpp and OverlayConfig.hpp: the nodes and the directed overlay between
-- them. Each `unordered_map` is a list of entries with distinct keys; the order in which the code
-- goes through one is the order of that list. A recursion of the code takes fuel here.
pub mod Parents
pub mod Traversal
pub mod Reachable
pub mod Termination
pub mod Cycles
pub mod Acyclic
pub mod Validation
use cmpe275_enterprise_apps.Common.{
  ℕ, zero, suc, ◌+◌, String, str_eq, Bool, true, false, not, ◌&&◌, ◌||◌, List, [], ◌∷◌, ◌++◌, map,
  Option, none, some, ◌==◌, if◌then◌else◌, length,
}
use cmpe275_enterprise_apps.Common.Decimal.{decimal}
use cmpe275_enterprise_apps.Common.Dict.{find, has_key, put, erase}
use cmpe275_enterprise_apps.Model.Request.{has_id}

pub record NodeInfo : Type 0 where
  pub node_id : String
  pub host : String
  pub port : ℕ
  pub is_entry_node : Bool
  pub owned_files : List String

pub record OverlayConfig : Type 0 where
  pub self_node_id : String
  pub nodes : List (String × NodeInfo)
  pub children : List (String × List String)
  pub parents : List (String × List String)
  pub file_to_owner_node_id : List (String × String)

abbrev pub empty_overlay : OverlayConfig
empty_overlay = record {
  self_node_id = "";
  nodes = [];
  children = [];
  parents = [];
  file_to_owner_node_id = [];
}

abbrev set_self_node_id : String → OverlayConfig → OverlayConfig
set_self_node_id id o = record o { self_node_id = id }

-- The two loops of `rebuildFileOwnershipIndex`, from an empty index.
unfoldable pub own_files : String → List String → List (String × String) → List (String × String)
own_files node_id [] index = index
own_files node_id (file ∷ files) index = own_files node_id files (put file node_id index)

unfoldable pub index_files :
    List (String × NodeInfo) → List (String × String) → List (String × String)
index_files [] index = index
index_files ((node_id, node) ∷ nodes) index =
    index_files nodes (own_files node_id node.owned_files index)

unfoldable pub rebuild_file_ownership_index : OverlayConfig → OverlayConfig
rebuild_file_ownership_index o = record o { file_to_owner_node_id = index_files o.nodes [] }

unfoldable pub add_node : NodeInfo → OverlayConfig → OverlayConfig
add_node node o = rebuild_file_ownership_index (record o { nodes = put node.node_id node o.nodes })

-- What a lookup in `children_` or `parents_` gives for a missing key.
abbrev pub or_empty : Option (List String) → List String
or_empty none = []
or_empty (some ids) = ids

unfoldable pub get_children : OverlayConfig → String → List String
get_children o node_id = or_empty (find node_id o.children)

unfoldable pub get_parent_ids : OverlayConfig → String → List String
get_parent_ids o node_id = or_empty (find node_id o.parents)

abbrev first_or_empty : List String → String
first_or_empty [] = ""
first_or_empty (id ∷ ids) = id

unfoldable get_parent_id : OverlayConfig → String → String
get_parent_id o node_id = first_or_empty (get_parent_ids o node_id)

abbrev endpoint_of : Option NodeInfo → String
endpoint_of none = ""
endpoint_of (some node) =
    Prim.Native.String.◌++◌ node.host (Prim.Native.String.◌++◌ ":" (decimal node.port))

unfoldable pub endpoint_for : OverlayConfig → String → String
endpoint_for o node_id = endpoint_of (find node_id o.nodes)

abbrev pub IncomingEdges : Type 0
IncomingEdges = List (String × List String)

unfoldable pub add_incoming_edge : String → String → IncomingEdges → IncomingEdges
add_incoming_edge child_id parent_id parents =
    let ids = or_empty (find child_id parents) in
    put child_id (if has_id parent_id ids then ids else ids ++ parent_id ∷ []) parents

-- `std::remove` and `erase` on a vector of node IDs.
unfoldable pub remove_id : String → List String → List String
remove_id x [] = []
remove_id x (y ∷ ys) = if str_eq y x then remove_id x ys else y ∷ remove_id x ys

abbrev store_or_erase : String → List String → IncomingEdges → IncomingEdges
store_or_erase child_id [] parents = erase child_id parents
store_or_erase child_id (id ∷ ids) parents = put child_id (id ∷ ids) parents

abbrev remove_found : String → String → Option (List String) → IncomingEdges → IncomingEdges
remove_found child_id parent_id none parents = parents
remove_found child_id parent_id (some ids) parents =
    store_or_erase child_id (remove_id parent_id ids) parents

unfoldable pub remove_incoming_edge : String → String → IncomingEdges → IncomingEdges
remove_incoming_edge child_id parent_id parents =
    remove_found child_id parent_id (find child_id parents) parents

unfoldable pub remove_incoming_edges : List String → String → IncomingEdges → IncomingEdges
remove_incoming_edges [] parent_id parents = parents
remove_incoming_edges (child ∷ children) parent_id parents =
    remove_incoming_edges children parent_id (remove_incoming_edge child parent_id parents)

unfoldable pub add_incoming_edges : List String → String → IncomingEdges → IncomingEdges
add_incoming_edges [] parent_id parents = parents
add_incoming_edges (child ∷ children) parent_id parents =
    add_incoming_edges children parent_id (add_incoming_edge child parent_id parents)

unfoldable pub set_children : String → List String → OverlayConfig → OverlayConfig
set_children node_id children o = record o {
  children = put node_id children o.children;
  parents =
      add_incoming_edges children node_id
        (remove_incoming_edges (or_empty (find node_id o.children)) node_id o.parents);
}

unfoldable get_node : OverlayConfig → String → Option NodeInfo
get_node o node_id = find node_id o.nodes

unfoldable get_all_node_ids : OverlayConfig → List String
get_all_node_ids o = map (λ e. e.0) o.nodes

-- The loop of `getEntryNode`.
unfoldable pub first_entry : List (String × NodeInfo) → Option NodeInfo
first_entry [] = none
first_entry ((id, node) ∷ nodes) = if node.is_entry_node then some node else first_entry nodes

unfoldable pub get_entry_node : OverlayConfig → Option NodeInfo
get_entry_node o = first_entry o.nodes

abbrev is_nil : List String → Bool
is_nil [] = true
is_nil (x ∷ xs) = false

unfoldable is_leaf : OverlayConfig → String → Bool
is_leaf o node_id = is_nil (or_empty (find node_id o.children))

abbrev is_entry : Option NodeInfo → Bool
is_entry none = false
is_entry (some node) = node.is_entry_node

unfoldable is_root : OverlayConfig → String → Bool
is_root o node_id = is_entry (get_node o node_id)

-- The loop of `getWorkerNodeIds`.
unfoldable worker_ids : List (String × NodeInfo) → List String
worker_ids [] = []
worker_ids ((id, node) ∷ nodes) =
    if not node.is_entry_node then id ∷ worker_ids nodes else worker_ids nodes

unfoldable get_worker_node_ids : OverlayConfig → List String
get_worker_node_ids o = worker_ids o.nodes

abbrev owner_node : OverlayConfig → Option String → Option NodeInfo
owner_node o none = none
owner_node o (some id) = get_node o id

unfoldable find_owner_of_file : OverlayConfig → String → Option NodeInfo
find_owner_of_file o source_file = owner_node o (find source_file o.file_to_owner_node_id)

abbrev files_of : Option NodeInfo → List String
files_of none = []
files_of (some node) = node.owned_files

unfoldable get_owned_files : OverlayConfig → String → List String
get_owned_files o node_id = files_of (get_node o node_id)

-- The getters for the node itself.
abbrev get_self : OverlayConfig → Option NodeInfo
get_self o = get_node o o.self_node_id

abbrev get_all_nodes : OverlayConfig → List NodeInfo
get_all_nodes o = map (λ e. e.1) o.nodes

abbrev get_self_parent_id : OverlayConfig → String
get_self_parent_id o = get_parent_id o o.self_node_id

abbrev get_self_children : OverlayConfig → List String
get_self_children o = get_children o o.self_node_id

abbrev is_self_leaf : OverlayConfig → Bool
is_self_leaf o = is_leaf o o.self_node_id

abbrev get_self_owned_files : OverlayConfig → List String
get_self_owned_files o = get_owned_files o o.self_node_id

abbrev neighbor_node_ids : OverlayConfig → String → List String
neighbor_node_ids o node_id = get_children o node_id

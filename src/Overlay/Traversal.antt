-- ===== src/Overlay/Traversal.antt =====
-- The recursive walks of OverlayConfig.hpp, and `validate`. Each takes fuel, one unit for each level
-- of the recursion; `none` means that it ran out.
use cmpe275_enterprise_apps.Common.{
  ℕ, zero, suc, ◌+◌, String, str_eq, Bool, true, false, not, ◌&&◌, List, [], ◌∷◌, ◌++◌, Option,
  none, some, ◌==◌, if◌then◌else◌, length,
}
use cmpe275_enterprise_apps.Common.Dict.{has_key}
use cmpe275_enterprise_apps.Model.Request.{has_id}
use cmpe275_enterprise_apps.Overlay.{
  NodeInfo, OverlayConfig, get_children, get_entry_node, remove_id,
}

infixl 5 ◌>>=◌
abbrev pub ◌>>=◌ : {A B : Type 0} → Option A → (A → Option B) → Option B
none >>= f = none
some a >>= f = f a

-- A loop over children that carries a state.
unfoldable pub visit_all : {S : Type 0} → (String → S → Option S) → List String → S → Option S
visit_all visit [] s = some s
visit_all visit (id ∷ ids) s = visit id s >>= λ s'. visit_all visit ids s'

-- `collectReachable`: the state is the set `reachable`.
unfoldable pub collect_reachable : ℕ → OverlayConfig → String → List String → Option (List String)
collect_reachable zero o id reachable = none
collect_reachable (suc fuel) o id reachable = elim (has_id id reachable) [
  | true ↦ some reachable
  | false ↦ visit_all (collect_reachable fuel o) (get_children o id) (id ∷ reachable)
]

-- `collectDescendantsRecursive`: the state is `out` and `visited`. The loop body stands first.
abbrev descend :
    (String → List String × List String → Option (List String × List String))
    → String
    → List String × List String
    → Option (List String × List String)
descend walk child (out, visited) = elim (has_id child visited) [
  | true ↦ some (out, visited)
  | false ↦ walk child (out ++ child ∷ [], child ∷ visited)
]

unfoldable collect_descendants_recursive :
    ℕ → OverlayConfig → String → List String × List String → Option (List String × List String)
collect_descendants_recursive zero o id s = none
collect_descendants_recursive (suc fuel) o id s =
    visit_all (descend (collect_descendants_recursive fuel o)) (get_children o id) s

unfoldable collect_descendants : ℕ → OverlayConfig → String → Option (List String)
collect_descendants fuel o id =
    collect_descendants_recursive fuel o id ([], id ∷ []) >>= λ s. some s.0

unfoldable collect_subtree : ℕ → OverlayConfig → String → Option (List String)
collect_subtree fuel o id =
    collect_descendants_recursive fuel o id (id ∷ [], id ∷ []) >>= λ s. some s.0

abbrev collect_self_subtree : ℕ → OverlayConfig → Option (List String)
collect_self_subtree fuel o = collect_subtree fuel o o.self_node_id

-- `hasCycle`: whether a cycle was found, `visited` and `activeStack`.
abbrev pub CycleState : Type 0
CycleState = Bool × List String × List String

-- The loop over children stops at the first cycle.
abbrev pub unless_found :
    (String → CycleState → Option CycleState) → String → CycleState → Option CycleState
unless_found check child (true, visited, active) = some (true, visited, active)
unless_found check child (false, visited, active) = check child (false, visited, active)

-- `activeStack.erase(nodeId)`, which a return from within the loop skips.
abbrev pub leave : String → CycleState → Option CycleState
leave id (true, visited, active) = some (true, visited, active)
leave id (false, visited, active) = some (false, visited, remove_id id active)

unfoldable pub has_cycle : ℕ → OverlayConfig → String → CycleState → Option CycleState
has_cycle zero o id s = none
has_cycle (suc fuel) o id (found, visited, active) = elim (has_id id active) [
  | true ↦ some (true, visited, active)
  | false ↦ elim (has_id id visited) [
    | true ↦ some (false, visited, active)
    | false ↦
        visit_all (unless_found (has_cycle fuel o)) (get_children o id)
          (false, id ∷ visited, id ∷ active)
        >>= leave id
  ]
]

unfoldable pub count_entries : List (String × NodeInfo) → ℕ
count_entries [] = 0
count_entries ((id, node) ∷ nodes) = (if node.is_entry_node then 1 else 0) + count_entries nodes

-- Whether the IDs can be inserted one by one into a set without meeting one twice.
unfoldable pub insert_all : List String → List String → Option (List String)
insert_all seen [] = some seen
insert_all seen (x ∷ xs) = if has_id x seen then none else insert_all (x ∷ seen) xs

-- The loops over owned files, with the set of those seen.
unfoldable pub files_distinct : List String → List (String × NodeInfo) → Option (List String)
files_distinct seen [] = some seen
files_distinct seen ((id, node) ∷ nodes) =
    insert_all seen node.owned_files >>= λ seen'. files_distinct seen' nodes

-- The loop over one node's children.
unfoldable pub children_known : OverlayConfig → List String → List String → Bool
children_known o seen [] = true
children_known o seen (child ∷ children) =
    has_key child o.nodes && not (has_id child seen) && children_known o (child ∷ seen) children

unfoldable pub edges_known : OverlayConfig → List (String × List String) → Bool
edges_known o [] = true
edges_known o ((id, children) ∷ edges) =
    has_key id o.nodes && children_known o [] children && edges_known o edges

abbrev is_some {ℓ} : {A : Type ℓ} → Option A → Bool
is_some none = false
is_some (some a) = true

-- The last two tests of `validate`, from the entry node.
unfoldable pub validate_walks : ℕ → OverlayConfig → NodeInfo → Option Bool
validate_walks fuel o entry = collect_reachable fuel o entry.node_id [] >>= λ reachable.
    let cycle = has_cycle fuel o entry.node_id (false, [], []) in
    if not (length reachable == length o.nodes) then some false else cycle >>= λ s. some (not s.0)

abbrev pub validate_from : ℕ → OverlayConfig → Option NodeInfo → Option Bool
validate_from fuel o none = some false
validate_from fuel o (some entry) =
    let walks = validate_walks fuel o entry in
    if not (count_entries o.nodes == 1)
    then some false
    else if not (is_some (files_distinct [] o.nodes))
    then some false
    else if not (edges_known o o.children)
    then some false
    else walks

unfoldable pub validate : ℕ → OverlayConfig → Option Bool
validate fuel o =
    if not (str_eq o.self_node_id "") && not (has_key o.self_node_id o.nodes)
    then some false
    else validate_from fuel o (get_entry_node o)

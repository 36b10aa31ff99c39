-- ===== src/Overlay/Parents.antt =====
-- The index of incoming edges against the outgoing ones.
use cmpe275_enterprise_apps.Common.{
  String, str_eq, eq_iff, Bool, not, ◌&&◌, ◌||◌, List, [], ◌∷◌, Option, none, some, ◌≡◌, refl,
  arith, if◌then◌else◌, Option-cases, inl, inr,
}
use cmpe275_enterprise_apps.Common.Dict.{
  find, find-put, find-erase, NodupKeys, put-NodupKeys, erase-NodupKeys,
}
use cmpe275_enterprise_apps.Model.Request.{has_id, has_id-concat}
use cmpe275_enterprise_apps.Overlay.{
  OverlayConfig, empty_overlay, IncomingEdges, or_empty, get_children, get_parent_ids, set_children,
  remove_id, add_incoming_edge, remove_incoming_edge, add_incoming_edges, remove_incoming_edges,
  store_or_erase, remove_found,
}

-- Whether `p` is listed as a parent of `c`.
abbrev listed : String → String → IncomingEdges → Bool
listed p c parents = has_id p (or_empty (find c parents))

pub has_id-remove_id :
    (x y : String) (ys : List String)
    → has_id x (remove_id y ys) ≡ (has_id x ys && not (str_eq y x))
unfolding has_id remove_id
has_id-remove_id x y [] = refl
has_id-remove_id x y (z ∷ zs) =
    ground (arith, has_id-remove_id x y zs, eq_iff y x, eq_iff z x, eq_iff z y)

listed-add :
    (child parent p c : String) (m : IncomingEdges)
    → listed p c (add_incoming_edge child parent m)
      ≡ (listed p c m || (str_eq child c && str_eq parent p))
unfolding add_incoming_edge
listed-add child parent p c m = rw (find-put child c) (
    ground
      (arith, has_id-concat p parent (or_empty (find child m)), eq_iff child c, eq_iff parent p))

find-store_or_erase :
    (child c : String) (ids : List String) (m : IncomingEdges)
    → NodupKeys m
    → or_empty (find c (store_or_erase child ids m))
      ≡ (if str_eq child c then ids else or_empty (find c m))
find-store_or_erase child c [] m n = rw (find-erase child c m n) (ground arith)
find-store_or_erase child c (id ∷ ids) m n = rw (find-put child c) (ground arith)

listed-remove :
    (child parent p c : String) (m : IncomingEdges)
    → NodupKeys m
    → listed p c (remove_incoming_edge child parent m)
      ≡ (listed p c m && not (str_eq child c && str_eq parent p))
unfolding remove_incoming_edge has_id
listed-remove child parent p c m n = elim (Option-cases (find child m)) [
  | inl e ↦ rw (e, remove_found) (ground (arith, e, eq_iff child c))
  | inr (ids, e) ↦
      rw (e, remove_found)
        (ground (
          arith,
          e,
          find-store_or_erase child c (remove_id parent ids) m n,
          has_id-remove_id p parent ids,
          eq_iff child c,
          eq_iff parent p,
        ))
]

add_incoming_edge-NodupKeys :
    (child parent : String) (m : IncomingEdges)
    → NodupKeys m
    → NodupKeys (add_incoming_edge child parent m)
unfolding add_incoming_edge
add_incoming_edge-NodupKeys child parent m n = put-NodupKeys child _ m n

store_or_erase-NodupKeys :
    (child : String) (ids : List String) (m : IncomingEdges)
    → NodupKeys m
    → NodupKeys (store_or_erase child ids m)
store_or_erase-NodupKeys child [] m n = erase-NodupKeys child m n
store_or_erase-NodupKeys child (id ∷ ids) m n = put-NodupKeys child (id ∷ ids) m n

remove_found-NodupKeys :
    (child parent : String) (found : Option (List String)) (m : IncomingEdges)
    → NodupKeys m
    → NodupKeys (remove_found child parent found m)
remove_found-NodupKeys child parent none m n = n
remove_found-NodupKeys child parent (some ids) m n =
    store_or_erase-NodupKeys child (remove_id parent ids) m n

remove_incoming_edge-NodupKeys :
    (child parent : String) (m : IncomingEdges)
    → NodupKeys m
    → NodupKeys (remove_incoming_edge child parent m)
unfolding remove_incoming_edge
remove_incoming_edge-NodupKeys child parent m n =
    remove_found-NodupKeys child parent (find child m) m n

listed-add_incoming_edges :
    (cs : List String) (parent p c : String) (m : IncomingEdges)
    → listed p c (add_incoming_edges cs parent m)
      ≡ (listed p c m || (has_id c cs && str_eq parent p))
unfolding add_incoming_edges has_id
listed-add_incoming_edges [] parent p c m = ground arith
listed-add_incoming_edges (child ∷ cs) parent p c m = ground (
  arith,
  listed-add_incoming_edges cs parent p c (add_incoming_edge child parent m),
  listed-add child parent p c m,
)

listed-remove_incoming_edges :
    (cs : List String) (parent p c : String) (m : IncomingEdges)
    → NodupKeys m
    → listed p c (remove_incoming_edges cs parent m)
      ≡ (listed p c m && not (has_id c cs && str_eq parent p))
unfolding remove_incoming_edges has_id
listed-remove_incoming_edges [] parent p c m n = ground arith
listed-remove_incoming_edges (child ∷ cs) parent p c m n = ground (
  arith,
  listed-remove_incoming_edges cs parent p c (remove_incoming_edge child parent m)
      (remove_incoming_edge-NodupKeys child parent m n),
  listed-remove child parent p c m n,
)

remove_incoming_edges-NodupKeys :
    (cs : List String) (parent : String) (m : IncomingEdges)
    → NodupKeys m
    → NodupKeys (remove_incoming_edges cs parent m)
unfolding remove_incoming_edges
remove_incoming_edges-NodupKeys [] parent m n = n
remove_incoming_edges-NodupKeys (child ∷ cs) parent m n =
    remove_incoming_edges-NodupKeys cs parent (remove_incoming_edge child parent m)
      (remove_incoming_edge-NodupKeys child parent m n)

add_incoming_edges-NodupKeys :
    (cs : List String) (parent : String) (m : IncomingEdges)
    → NodupKeys m
    → NodupKeys (add_incoming_edges cs parent m)
unfolding add_incoming_edges
add_incoming_edges-NodupKeys [] parent m n = n
add_incoming_edges-NodupKeys (child ∷ cs) parent m n =
    add_incoming_edges-NodupKeys cs parent (add_incoming_edge child parent m)
      (add_incoming_edge-NodupKeys child parent m n)

-- `p` is listed as a parent of `c` exactly if `c` is listed as a child of `p`.
pub record IsIndexed (o : OverlayConfig) : Type 0 where
  pub distinct : NodupKeys o.parents
  pub inverse : (p c : String) → has_id p (get_parent_ids o c) ≡ has_id c (get_children o p)

pub empty_overlay-IsIndexed : IsIndexed empty_overlay
unfolding get_parent_ids get_children find has_id
empty_overlay-IsIndexed = record { distinct = tt; inverse = λ p c. refl }

set_children-inverse :
    (node : String) (cs : List String) (o : OverlayConfig)
    → IsIndexed o
    → IsIndexed (set_children node cs o)
unfolding set_children get_parent_ids get_children
set_children-inverse node cs o v = record {
  distinct =
      add_incoming_edges-NodupKeys cs node _ (
        remove_incoming_edges-NodupKeys (or_empty (find node o.children)) node o.parents
          v.distinct);
  inverse = λ p c.
      let old = or_empty (find node o.children) in
      rw (find-put node p) (
        ground (
          arith,
          listed-add_incoming_edges cs node p c (remove_incoming_edges old node o.parents),
          listed-remove_incoming_edges old node p c o.parents v.distinct,
          v.inverse p c,
          eq_iff node p,
        ));
}

-- `setChildren` makes the given list the children of its node, whether it had some or not, leaves
-- the children of every other node and the nodes themselves as they were, and keeps the index of
-- incoming edges the exact inverse of the outgoing ones.
pub set_children-IsIndexed :
    (node : String) (cs : List String) (o : OverlayConfig)
    → IsIndexed o
    → let o' = set_children node cs o in
      ((p : String) → get_children o' p ≡ (if str_eq node p then cs else get_children o p))
      × (o'.nodes ≡ o.nodes)
      × IsIndexed o'
unfolding set_children get_children
set_children-IsIndexed node cs o v = (
  λ p. rw (find-put node p) (ground arith),
  unfold set_children in refl,
  set_children-inverse node cs o v,
)

-- ===== src/Model/Request.antt =====
-- basic/src/model/QueryRequest.hpp: a query and the path that it has taken.
use cmpe275_enterprise_apps.Common.{
  ℕ, ℤ, Float32, String, str_eq, eq_iff, Bool, true, false, ◌||◌, inl, inr, Option, none, List, [],
  ◌∷◌, ◌++◌, ◌≡◌, refl, arith, if◌then◌else◌, Bool-cases,
}

pub record Range (A : Type 0) : Type 0 where
  pub lo : A
  pub hi : A

pub data QueryType : Type 0 where
  count execute : QueryType

abbrev pub is_count : QueryType → Bool
is_count count = true
is_count execute = false

pub record QueryRequest : Type 0 where
  pub query_id : String
  pub query_type : QueryType
  pub origin_node_id : String
  pub entry_node_id : String
  pub target_node_id : Option String
  pub distributed_allowed : Bool
  pub visited_node_ids : List String
  pub pickup_range : Option (Range ℤ)
  pub dropoff_range : Option (Range ℤ)
  pub trip_distance_range : Option (Range Float32)
  pub tip_amount_range : Option (Range ℤ)
  pub total_amount_range : Option (Range ℤ)
  pub payment_type : Option ℤ
  pub offset : ℕ
  pub limit : ℕ
  pub start_row : ℕ
  pub chunk_size : ℕ
  pub scan_row_budget : ℕ

-- The constructor with its default member values.
abbrev pub new_request : String → QueryType → QueryRequest
new_request id type = record {
  query_id = id;
  query_type = type;
  origin_node_id = "";
  entry_node_id = "";
  target_node_id = none;
  distributed_allowed = true;
  visited_node_ids = [];
  pickup_range = none;
  dropoff_range = none;
  trip_distance_range = none;
  tip_amount_range = none;
  total_amount_range = none;
  payment_type = none;
  offset = 0;
  limit = 0;
  start_row = 0;
  chunk_size = 0;
  scan_row_budget = 0;
}

-- `std::find` on a vector of node IDs.
unfoldable pub has_id : String → List String → Bool
has_id x [] = false
has_id x (y ∷ ys) = str_eq y x || has_id x ys

unfoldable pub has_visited_node : QueryRequest → String → Bool
has_visited_node r node_id = has_id node_id r.visited_node_ids

unfoldable pub mark_visited_node : QueryRequest → String → QueryRequest
mark_visited_node r node_id =
    if has_visited_node r node_id
    then r
    else record r { visited_node_ids = r.visited_node_ids ++ node_id ∷ [] }

pub has_id-concat :
    (x y : String) (ys : List String) → has_id x (ys ++ y ∷ []) ≡ (has_id x ys || str_eq y x)
unfolding has_id
has_id-concat x y [] = ground arith
has_id-concat x y (z ∷ zs) = ground (arith, has_id-concat x y zs)

-- After `mark_visited_node r a` the visited nodes are those of before and `a`.
pub has_visited_node-mark_visited_node :
    (r : QueryRequest) (a b : String)
    → has_visited_node (mark_visited_node r a) b ≡ (has_visited_node r b || str_eq a b)
unfolding has_visited_node mark_visited_node
has_visited_node-mark_visited_node r a b =
    ground (arith, has_id-concat b a r.visited_node_ids, eq_iff a b)

-- No ID stands twice in a list.
abbrev pub NodupIds : List String → Type 0
NodupIds [] = Unit {0}
NodupIds (x ∷ xs) = (has_id x xs ≡ false) × NodupIds xs

pub NodupIds-concat :
    (y : String) (ys : List String) → has_id y ys ≡ false → NodupIds ys → NodupIds (ys ++ y ∷ [])
unfolding has_id
NodupIds-concat y [] h n = (refl, tt)
NodupIds-concat y (z ∷ zs) h n =
    ground (arith, has_id-concat z y zs, NodupIds-concat y zs, eq_iff y z, eq_iff z y)

-- Marking a node as visited keeps each ID in the visited path at most once.
pub mark_visited_node-NodupIds :
    (r : QueryRequest) (a : String)
    → NodupIds r.visited_node_ids
    → NodupIds (mark_visited_node r a).visited_node_ids
unfolding mark_visited_node has_visited_node
mark_visited_node-NodupIds r a n = elim (Bool-cases (has_id a r.visited_node_ids)) [
  | inl e ↦ rw e n
  | inr e ↦ rw e (NodupIds-concat a r.visited_node_ids e n)
]

-- ===== src/Config/Validity.antt =====
-- What holds of a configuration that loads.
use cmpe275_enterprise_apps.Common.{
  ℕ, ◌==◌, true, false, List, [], ◌∷◌, Option, none, some, ◌≡◌, ◌≢◌, refl, ◌⊎◌, inl, inr, arith,
  All, Bool-cases, subst, some_inj,
}
use cmpe275_enterprise_apps.Engine.{Bytes}
use cmpe275_enterprise_apps.Csv.Row.{is_name}
use cmpe275_enterprise_apps.Config.{
  NeighborConfig, NodeConfig, is_nil, bytes_eq, contains, validate_neighbors, validate_config,
  checked, read_lines, load_config, empty_config,
}

bytes_eq_refl : (a : Bytes) → bytes_eq a a ≡ true
unfolding bytes_eq
bytes_eq_refl [] = refl
bytes_eq_refl (x ∷ xs) = ground (arith, bytes_eq_refl xs)

bytes_eq-≢ : (a b : Bytes) → bytes_eq a b ≡ false → a ≢ b
bytes_eq-≢ a b h e =
    let same : bytes_eq a b ≡ true =
      subst (λ (x : Bytes). bytes_eq a x ≡ true) e (bytes_eq_refl a) in
    cc

-- A neighbor of the node `self`.
record IsNeighbor (self : Bytes) (n : NeighborConfig) : Type 0 where
  named : is_nil n.node_id ≡ false
  hosted : is_nil n.host ≡ false
  port : n.port ≢ 0
  other : n.node_id ≢ self

abbrev Distinct : List NeighborConfig → Type 0
Distinct [] = Unit {0}
Distinct (n ∷ ns) = All (λ m. n.node_id ≢ m.node_id) ns × Distinct ns

abbrev IsNew : List Bytes → NeighborConfig → Type 0
IsNew seen n = contains n.node_id seen ≡ false

All-IsNew :
    (x : Bytes) (seen : List Bytes) (ns : List NeighborConfig)
    → All (IsNew (x ∷ seen)) ns
    → All (λ m. x ≢ m.node_id) ns × All (IsNew seen) ns
unfolding contains
All-IsNew x seen [] a = (tt, tt)
All-IsNew x seen (n ∷ ns) a =
    let (others, news) = All-IsNew x seen ns a.1 in
    let differs : bytes_eq x n.node_id ≡ false = ground (arith, a.0) in
    let new : contains n.node_id seen ≡ false = ground (arith, a.0) in
    ((bytes_eq-≢ x n.node_id differs, others), (new, news))

validate_neighbors-IsNeighbor :
    (self : Bytes) (seen : List Bytes) (ns : List NeighborConfig)
    → validate_neighbors self seen ns ≡ true
    → All (IsNeighbor self) ns × Distinct ns × All (IsNew seen) ns
unfolding validate_neighbors
validate_neighbors-IsNeighbor self seen [] h = (tt, tt, tt)
validate_neighbors-IsNeighbor self seen (n ∷ ns) h =
    let rest : validate_neighbors self (n.node_id ∷ seen) ns ≡ true = ground (arith, h) in
    let named : is_nil n.node_id ≡ false = ground (arith, h) in
    let hosted : is_nil n.host ≡ false = ground (arith, h) in
    let port : (n.port == 0) ≡ false = ground (arith, h) in
    let other : bytes_eq n.node_id self ≡ false = ground (arith, h) in
    let new : contains n.node_id seen ≡ false = ground (arith, h) in
    let (all, distinct, news) = validate_neighbors-IsNeighbor self (n.node_id ∷ seen) ns rest in
    let (others, fresh) = All-IsNew n.node_id seen ns news in
    (
      (
        record {
          named = named;
          hosted = hosted;
          port = λ e. absurd (ground (arith, port, e));
          other = bytes_eq-≢ n.node_id self other;
        },
        all,
      ),
      (others, distinct),
      (new, fresh),
    )

-- A configuration with which a node can start.
pub record IsValid (cfg : NodeConfig) : Type 0 where
  named : is_nil cfg.node_id ≡ false
  hosted : is_nil cfg.listen_host ≡ false
  port : cfg.listen_port ≢ 0
  language : (is_name "cpp" cfg.language ≡ true) ⊎ (is_name "python" cfg.language ≡ true)
  neighbors : All (IsNeighbor cfg.node_id) cfg.neighbors
  distinct : Distinct cfg.neighbors

validate_config-IsValid : (cfg : NodeConfig) → validate_config cfg ≡ true → IsValid cfg
unfolding validate_config
validate_config-IsValid cfg h =
    let ok : validate_neighbors cfg.node_id [] cfg.neighbors ≡ true = ground (arith, h) in
    let (all, distinct, news) = validate_neighbors-IsNeighbor cfg.node_id [] cfg.neighbors ok in
    let port : (cfg.listen_port == 0) ≡ false = ground (arith, h) in
    record {
      named = ground (arith, h);
      hosted = ground (arith, h);
      port = λ e. absurd (ground (arith, port, e));
      language = ground (arith, h);
      neighbors = all;
      distinct = distinct;
    }

-- A configuration that `loadConfig` returns has a node ID, a host and a port, is for C++ or Python,
-- and has only neighbors with an ID, a host and a port; none of them is the node itself, and none
-- is there twice. This holds whatever the file says, in which order, and how often.
pub load_config-IsValid :
    (stoul : Bytes → Option ℕ) (content : Option (List Bytes)) (cfg : NodeConfig)
    → load_config stoul content ≡ some cfg
    → IsValid cfg
unfolding load_config
load_config-IsValid stoul none cfg e = cc
load_config-IsValid stoul (some lines) cfg e = returned (read_lines stoul lines empty_config) e
  where
    returned : (r : Option NodeConfig) → checked stoul r ≡ some cfg → IsValid cfg
    returned none e = cc
    returned (some c) e = elim (Bool-cases (validate_config c)) [
      | inr refused ↦ let x = rw refused at e in cc
      | inl valid ↦ subst IsValid (some_inj (rw valid at e)) (validate_config-IsValid c valid)
    ]

-- ===== src/Coordinator/Table.antt =====
-- The table of request states: lookups, writes, and new entries.
use cmpe275_enterprise_apps.Common.{
  subst, some_inj, String, str_eq, eq_iff, true, false, List, [], ◌∷◌, ◌++◌, map, none, some, ◌≡◌,
  refl, sym, ap, ◌∙◌, ◌⊎◌, arith, if◌then◌else◌, All, All-append, Option-cases, Bool-cases, inl,
  inr,
}
use cmpe275_enterprise_apps.Model.Request.{QueryRequest, has_id, NodupIds, NodupIds-concat}
use cmpe275_enterprise_apps.RequestState.{RequestState, QueryState, new_state}
use cmpe275_enterprise_apps.RequestState.Invariant.{IsValid, new_state-IsValid, set_state-IsValid}
use cmpe275_enterprise_apps.Coordinator.{
  Coordinator, find_state, replace_state, save, find_request_state, create_request_state,
  found_or_created, update_query_state, updated,
}

abbrev pub ids : List RequestState → List String
ids = map (λ s. s.query_id)

-- Every state is valid, and no query ID stands in the table twice.
pub record IsWellFormed (c : Coordinator) : Type 0 where
  pub states : All IsValid c.query_states
  pub distinct : NodupIds (ids c.query_states)

pub find_state-query_id :
    (id : String) (states : List RequestState) {s : RequestState}
    → find_state id states ≡ some s
    → s.query_id ≡ id
unfolding find_state
find_state-query_id id [] e = cc
find_state-query_id id (t ∷ states) {s} e =
    ground (arith, eq_iff t.query_id id, find_state-query_id id states {s = s})

pub find_state-All {κ} :
    (P : RequestState → Type κ) (id : String) (states : List RequestState) {s : RequestState}
    → All P states
    → find_state id states ≡ some s
    → P s
unfolding find_state
find_state-All P id [] a e = cc
find_state-All P id (t ∷ states) {s} a e = elim (Bool-cases (str_eq t.query_id id)) [
  | inl h ↦ subst P (some_inj (rw h at e)) a.0
  | inr h ↦ find_state-All P id states a.1 (rw h at e)
]

replace_state-All {κ} :
    (P : RequestState → Type κ) (s : RequestState) (states : List RequestState)
    → P s
    → All P states
    → All P (replace_state s states)
unfolding replace_state
replace_state-All P s [] h a = a
replace_state-All P s (t ∷ states) h a =
    elim (str_eq t.query_id s.query_id)
      as (λ b. All P (if b then s ∷ states else t ∷ replace_state s states)) [
        | true ↦ (h, a.1)
        | false ↦ (a.0, replace_state-All P s states h a.1)
      ]

ids-replace_state :
    (s : RequestState) (states : List RequestState) → ids (replace_state s states) ≡ ids states
unfolding replace_state
ids-replace_state s [] = refl
ids-replace_state s (t ∷ states) =
    ground (arith, eq_iff t.query_id s.query_id, ids-replace_state s states)

-- A write to a state that is in the table changes the lookup of its ID, and of no other.
pub find_state-replace_state :
    (s : RequestState) (j : String) (states : List RequestState)
    → has_id s.query_id (ids states) ≡ true
    → find_state j (replace_state s states)
      ≡ (if str_eq s.query_id j then some s else find_state j states)
unfolding find_state replace_state has_id
find_state-replace_state s j [] h = cc
find_state-replace_state s j (t ∷ states) h = ground (
  arith,
  eq_iff t.query_id s.query_id,
  eq_iff t.query_id j,
  eq_iff s.query_id j,
  find_state-replace_state s j states,
)

find_state-none :
    (id : String) (states : List RequestState)
    → find_state id states ≡ none
    → has_id id (ids states) ≡ false
unfolding find_state has_id
find_state-none id [] e = refl
find_state-none id (t ∷ states) e = ground (arith, find_state-none id states)

pub find_state-some :
    (id : String) (states : List RequestState) {s : RequestState}
    → find_state id states ≡ some s
    → has_id id (ids states) ≡ true
unfolding find_state has_id
find_state-some id [] e = cc
find_state-some id (t ∷ states) {s} e =
    ground (arith, eq_iff t.query_id id, find_state-some id states {s = s})

pub save-IsWellFormed :
    {s : RequestState} {c : Coordinator} → IsValid s → IsWellFormed c → IsWellFormed (save s c)
save-IsWellFormed {s} {c} h v = record {
  states = replace_state-All IsValid s c.query_states h v.states;
  distinct = rw (ids-replace_state s c.query_states) v.distinct;
}

ids-concat :
    (states : List RequestState) (s : RequestState)
    → ids (states ++ s ∷ []) ≡ ids states ++ s.query_id ∷ []
ids-concat [] s = refl
ids-concat (t ∷ states) s = ap (◌∷◌ t.query_id) (ids-concat states s)

find_state-concat :
    (s : RequestState) (j : String) (states : List RequestState)
    → find_state s.query_id states ≡ none
    → find_state j (states ++ s ∷ [])
      ≡ (if str_eq s.query_id j then some s else find_state j states)
unfolding find_state
find_state-concat s j [] e = refl
find_state-concat s j (t ∷ states) e = ground (
  arith,
  eq_iff t.query_id s.query_id,
  eq_iff t.query_id j,
  eq_iff s.query_id j,
  find_state-concat s j states,
)

create_request_state-IsValid :
    (request : QueryRequest) {c : Coordinator}
    → IsWellFormed c
    → IsValid (create_request_state request c).0 × IsWellFormed (create_request_state request c).1
unfolding create_request_state
create_request_state-IsValid request {c} v =
    elim (Option-cases (find_request_state request.query_id c)) [
      | inr (s, e) ↦
          rw (e, found_or_created)
            (find_state-All IsValid request.query_id c.query_states v.states e, v)
      | inl e ↦
          rw (e, found_or_created)
            (
              new_state-IsValid request.query_id request,
              record {
                states =
                    All-append IsValid c.query_states _ v.states
                      (new_state-IsValid request.query_id request, tt);
                distinct = rw (ids-concat c.query_states (new_state request.query_id request)) (
                    NodupIds-concat request.query_id (ids c.query_states)
                      (find_state-none request.query_id c.query_states e) v.distinct);
              },
            )
    ]

-- On a well-formed coordinator `createRequestState` gives a valid state: that of the table for the
-- query ID, or a new one if there is none. Afterwards the table has that state under the query ID,
-- and under every other ID what it had; it stays well-formed.
pub create_request_state-IsWellFormed :
    (request : QueryRequest) {c : Coordinator}
    → IsWellFormed c
    → let (s, c') = create_request_state request c in
      IsValid s
      × (((find_request_state request.query_id c ≡ some s) × (c' ≡ c))
          ⊎ ((find_request_state request.query_id c ≡ none)
              × (s ≡ new_state request.query_id request)))
      × ((j : String)
          → find_request_state j c'
            ≡ (if str_eq request.query_id j then some s else find_request_state j c))
      × IsWellFormed c'
unfolding create_request_state
create_request_state-IsWellFormed request {c} v =
    let (valid, well_formed) = create_request_state-IsValid request v in
    elim (Option-cases (find_request_state request.query_id c)) [
      | inr (s, e) ↦
          rw (e, found_or_created)
            (rw (e, found_or_created) at valid, inl (refl, refl), λ j. find_same s j e, v)
      | inl e ↦
          rw (e, found_or_created)
            (
              rw (e, found_or_created) at valid,
              inr (refl, refl),
              λ j. find_state-concat (new_state request.query_id request) j c.query_states e,
              rw (e, found_or_created) at well_formed,
            )
    ]
  where
    find_same :
        (s : RequestState) (j : String)
        → find_request_state request.query_id c ≡ some s
        → find_request_state j c
          ≡ (if str_eq request.query_id j then some s else find_request_state j c)
    find_same s j e = elim (Bool-cases (str_eq request.query_id j)) [
      | inl h ↦
          rw h (
            sym (ap (λ (k : String). find_request_state k c) ((eq_iff request.query_id j).0 h)) ∙ e)
      | inr h ↦ rw h refl
    ]

-- `updateQueryState` keeps the table of a well-formed coordinator well-formed, whether it has the
-- query ID or not.
pub update_query_state-IsWellFormed :
    (id : String) (q : QueryState) {c : Coordinator}
    → IsWellFormed c
    → IsWellFormed (update_query_state id q c)
unfolding update_query_state
update_query_state-IsWellFormed id q {c} v = elim (Option-cases (find_request_state id c)) [
  | inl e ↦ rw (e, updated) v
  | inr (s, e) ↦
      let h = find_state-All IsValid id c.query_states v.states e in
      rw (e, updated) (save-IsWellFormed (set_state-IsValid q h) v)
]

-- ===== src/Coordinator/Delivery.antt =====
-- Chunked delivery: the rows of the cache leave it in order, each of them once.
use cmpe275_enterprise_apps.Common.{
  ℕ, zero, suc, ◌+◌, ◌-◌, ◌≤◌, min, String, Bool, true, false, List, [], ◌∷◌, ◌++◌, ◌≡◌, refl, ap,
  ◌∙◌, sym, arith, leb, if◌then◌else◌, length, take, drop, Bool-cases, inl, inr, drop-drop,
  take-append-drop, length-take, length-drop,
}
use cmpe275_enterprise_apps.Model.Trip.{TaxiTrip}
use cmpe275_enterprise_apps.RequestState.{
  RequestState, completed, set_state, set_next_unread_index, all_workers_completed,
}
use cmpe275_enterprise_apps.RequestState.Invariant.{IsValid, set_state-IsValid}
use cmpe275_enterprise_apps.Coordinator.Rpc.{RpcChunkResult, deliver, is_finished}

-- The cached rows behind the cursor, and their sources.
abbrev pub unread : RequestState → List TaxiTrip
unread s = drop s.next_unread_index s.aggregated_result.matched_trips

abbrev unread_sources : RequestState → List String
unread_sources s = drop s.next_unread_index s.aggregated_result.matched_trip_sources

-- `out` takes the next rows of `s`, at most `n` of them, and leaves `s'`.
pub record Delivers (n : ℕ) (s : RequestState) (out : RpcChunkResult) (s' : RequestState)
    : Type 0 where
  pub trips : out.trips ++ unread s' ≡ unread s
  pub sources : out.sources ++ unread_sources s' ≡ unread_sources s
  pub bound : length out.trips ≤ n
  pub labelled : length out.sources ≡ length out.trips
  pub done : out.done ≡ is_finished s'
  pub query_id : s'.query_id ≡ s.query_id
  pub valid : IsValid s'

pub drop_all {ℓ} : {A : Type ℓ} (n : ℕ) (xs : List A) → length xs ≤ n → drop n xs ≡ []
drop_all zero [] h = refl
drop_all zero (x ∷ xs) h = elim h [ ]
drop_all (suc n) [] h = refl
drop_all (suc n) (x ∷ xs) h = drop_all n xs (omega arith)

-- The next `size` elements behind position `start`, and the rest.
next_elements {ℓ} :
    {A : Type ℓ} (start size : ℕ) (xs : List A)
    → take size (drop start xs) ++ drop (start + size) xs ≡ drop start xs
next_elements start size xs =
    ap (◌++◌ (take size (drop start xs))) (sym (drop-drop start size (start + size) xs refl))
    ∙ take-append-drop size (drop start xs)

-- The state once `size` rows are delivered; it is marked as completed where nothing is left.
abbrev delivered : ℕ → RequestState → RequestState
delivered size s = set_next_unread_index (s.next_unread_index + size) s

abbrev mark : Bool → RequestState → RequestState
mark done s = if done then set_state completed s else s

unread-mark : (done : Bool) (s : RequestState) → unread (mark done s) ≡ unread s
unread-mark true s = refl
unread-mark false s = refl

unread_sources-mark :
    (done : Bool) (s : RequestState) → unread_sources (mark done s) ≡ unread_sources s
unread_sources-mark true s = refl
unread_sources-mark false s = refl

mark-is_finished : (done : Bool) (s : RequestState) → is_finished (mark done s) ≡ is_finished s
unfolding all_workers_completed
mark-is_finished true s = refl
mark-is_finished false s = refl

mark_query_id : (done : Bool) (s : RequestState) → (mark done s).query_id ≡ s.query_id
mark_query_id true s = refl
mark_query_id false s = refl

mark-IsValid : (done : Bool) {s : RequestState} → IsValid s → IsValid (mark done s)
mark-IsValid true v = set_state-IsValid completed v
mark-IsValid false v = v

delivered-IsValid :
    (size : ℕ) {s : RequestState}
    → s.next_unread_index + size ≤ length s.aggregated_result.matched_trips
    → IsValid s
    → IsValid (delivered size s)
delivered-IsValid size h v = record {
  aligned = v.aligned;
  cursor = h;
  distinct = v.distinct;
  consistent = v.consistent;
}

-- `fetchChunkForRpc` delivers from a valid state the next rows behind the cursor, in order, with
-- their sources: what it returns, followed by what is left, is what was unread before. It returns
-- no more rows than asked for, and says `done` exactly when the cursor has reached the end of the
-- cache and every worker is completed.
pub deliver-Delivers :
    (n : ℕ) (self id : String) (s : RequestState)
    → IsValid s
    → Delivers n s (deliver n self id s).0 (deliver n self id s).1
unfolding deliver
deliver-Delivers n self id s v =
    let trips = s.aggregated_result.matched_trips in
    let sources = s.aggregated_result.matched_trip_sources in
    let start = s.next_unread_index in
    let size = min n (length trips - start) in
    elim (Bool-cases (leb (length trips) start)) [
      | inl none_left ↦ rw none_left (record {
        trips = refl;
        sources = refl;
        bound = omega arith;
        labelled = refl;
        done = rw none_left;
        query_id = refl;
        valid = v;
      })
      | inr some_left ↦
          let enough : leb (start + size) (length sources) ≡ true =
            ground (arith, v.aligned, v.cursor, some_left) in
          let done = is_finished (delivered size s) in
          rw (some_left, enough)
            (record {
              trips =
                  ap (◌++◌ (take size (drop start trips))) (unread-mark done (delivered size s))
                  ∙ next_elements start size trips;
              sources =
                  ap (◌++◌ (take size (drop start sources)))
                    (unread_sources-mark done (delivered size s))
                  ∙ next_elements start size sources;
              bound = omega (arith, length-take size (drop start trips));
              labelled = omega (
                arith,
                v.aligned,
                length-take size (drop start trips),
                length-take size (drop start sources),
                length-drop start trips,
                length-drop start sources,
              );
              done = sym (mark-is_finished done (delivered size s));
              query_id = mark_query_id done (delivered size s);
              valid = mark-IsValid done (delivered-IsValid size (ground (arith, v.cursor)) v);
            })
    ]

-- ===== src/Tracker/Stuck.antt =====
-- The tests and the lists of requests that are stuck in a phase,
-- prism_serve/scheduler/sequence_state.py.
use prism_serve.Base.{
  ℕ, ◌-◌, Bool, false, not, List, [], ◌∷◌, ltb, leb, if◌then◌else◌, nat_key, text_key, pair_key,
  triple_key, filter,
}
use prism_serve.Base.Dict.{values}
use prism_serve.Tracker.State.{
  kv_pending, prefilling, recomputing, decoding, prefix_prefilling, same_state, RequestInfo,
  Tracker,
}

unfoldable pub is_stuck : ℕ → ℕ → RequestInfo → Bool
is_stuck now timeout r =
    if not (same_state r.state kv_pending) then false else ltb timeout (now - r.kv_sent_at)

unfoldable pub is_prefill_stuck : ℕ → ℕ → RequestInfo → Bool
is_prefill_stuck now timeout r =
    if not (same_state r.state prefilling) then false else ltb timeout (now - r.prefill_start)

unfoldable pub is_recompute_stuck : ℕ → ℕ → RequestInfo → Bool
is_recompute_stuck now timeout r =
    if not (same_state r.state recomputing) then false else ltb timeout (now - r.recompute_start)

unfoldable pub is_decode_stuck : ℕ → ℕ → RequestInfo → Bool
is_decode_stuck now timeout r =
    if not (same_state r.state decoding) then false else ltb timeout (now - r.decode_start)

unfoldable pub is_suffix_prefill_stuck : ℕ → ℕ → RequestInfo → Bool
is_suffix_prefill_stuck now timeout r =
    if not (same_state r.state prefix_prefilling)
    then false
    else ltb timeout (now - r.suffix_prefill_started_at)

-- Python's `sorted` by a key: stable.
unfoldable pub insert_by {ℓ} : {A : Type ℓ} → (A → ℕ) → A → List A → List A
insert_by key x [] = x ∷ []
insert_by key x (y ∷ ys) = if leb (key x) (key y) then x ∷ y ∷ ys else y ∷ insert_by key x ys

unfoldable pub sort_by {ℓ} : {A : Type ℓ} → (A → ℕ) → List A → List A
sort_by key [] = []
sort_by key (x ∷ xs) = insert_by key x (sort_by key xs)

unfoldable pub get_stuck_requests : ℕ → ℕ → Tracker → List RequestInfo
get_stuck_requests now timeout t =
    sort_by (λ r. r.kv_sent_at) (filter (is_stuck now timeout) (values t.requests))

unfoldable pub get_stuck_prefills : ℕ → ℕ → Tracker → List RequestInfo
get_stuck_prefills now timeout t =
    sort_by (λ r. r.prefill_start) (filter (is_prefill_stuck now timeout) (values t.requests))

unfoldable pub get_stuck_recomputes : ℕ → ℕ → Tracker → List RequestInfo
get_stuck_recomputes now timeout t =
    sort_by (λ r. r.recompute_start) (filter (is_recompute_stuck now timeout) (values t.requests))

unfoldable pub get_stuck_decodes : ℕ → ℕ → Tracker → List RequestInfo
get_stuck_decodes now timeout t =
    sort_by (λ r. r.decode_start) (filter (is_decode_stuck now timeout) (values t.requests))

unfoldable pub get_stuck_suffix_prefills : ℕ → ℕ → Tracker → List RequestInfo
get_stuck_suffix_prefills now timeout t =
    sort_by (λ r. r.suffix_prefill_started_at)
      (filter (is_suffix_prefill_stuck now timeout) (values t.requests))

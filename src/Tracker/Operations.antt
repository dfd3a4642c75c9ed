-- ===== src/Tracker/Operations.antt =====
-- RequestTracker: prism_serve/scheduler/sequence_state.py.
use prism_serve.Base.{
  ℕ, ◌+◌, String, Bool, true, false, not, ◌||◌, Option, none, some, List, [], ◌∷◌, ◌++◌,
  if◌then◌else◌, ltb, ◌==◌, nat_key, text_key, pair_key, filter, any, assertion_error, key_error,
  ok, err, Action,
}
use prism_serve.Base.Dict.{values, lookup, contains, insert, erase}
use prism_serve.Tracker.State.{
  SeqState, waiting, prefilling, kv_pending, recomputing, affinity_loading, prefix_prefilling,
  decoding, finished, aborted, same_state, PublishOutcome, RequestInfo, ttft_ms, Tracker,
}

-- The table `VALID`.
unfoldable pub successors : SeqState → List SeqState
successors waiting = prefilling ∷ affinity_loading ∷ []
successors prefilling = kv_pending ∷ []
successors affinity_loading = prefix_prefilling ∷ waiting ∷ []
successors prefix_prefilling = decoding ∷ waiting ∷ []
successors kv_pending = decoding ∷ recomputing ∷ []
successors recomputing = decoding ∷ []
successors decoding = finished ∷ aborted ∷ []
successors finished = []
successors aborted = []

-- `_validate_transition`: any phase may be aborted.
unfoldable pub allowed : SeqState → SeqState → Bool
allowed current new = any (same_state new) (successors current) || same_state new aborted

-- The time stamps of a phase that is entered.
unfoldable pub stamp : SeqState → ℕ → RequestInfo → RequestInfo
stamp waiting now r = r
stamp prefilling now r = record r {
  prefill_start = now;
  dispatch_attempts = r.dispatch_attempts + 1;
}
stamp kv_pending now r = record r { kv_sent_at = now }
stamp affinity_loading now r = record r { affinity_started_at = now }
stamp prefix_prefilling now r = record r { prefix_ready_at = now; suffix_prefill_started_at = now }
stamp recomputing now r = record r { recompute_start = now }
stamp decoding now r = record r { decode_start = now }
stamp finished now r = record r { finished_at = now }
stamp aborted now r = record r { finished_at = now }

-- A request that enters a phase: the stamps, the keyword arguments, the phase.
unfoldable pub enter : SeqState → (RequestInfo → RequestInfo) → ℕ → RequestInfo → RequestInfo
enter new update now r = let r' = update (stamp new now r) in record r' { state = new }

abbrev pub put : RequestInfo → String → Tracker → Tracker
put r req_id t = record t { requests = insert req_id r t.requests }

unfoldable pub transition :
    String → SeqState → (RequestInfo → RequestInfo) → ℕ → Action Tracker (Unit {0})
transition req_id new update now t = elim (lookup req_id t.requests) [
  | none ↦ (err key_error, t)
  | some r ↦
      if allowed r.state new
      then (ok tt, put (enter new update now r) req_id t)
      else (err (assertion_error "illegal transition"), t)
]

unfoldable pub add : RequestInfo → Action Tracker (Unit {0})
add r t =
    if contains r.req_id t.requests
    then (err (assertion_error "duplicate request id"), t)
    else (ok tt, put r r.req_id t)

unfoldable pub remove : String → Tracker → Option RequestInfo × Tracker
remove req_id t = (lookup req_id t.requests, record t { requests = erase req_id t.requests })

abbrev pub get : String → Tracker → Option RequestInfo
get req_id t = lookup req_id t.requests

unfoldable pub set_publish_outcome : String → PublishOutcome → Action Tracker (Unit {0})
set_publish_outcome req_id outcome t = elim (lookup req_id t.requests) [
  | none ↦ (err key_error, t)
  | some r ↦ (ok tt, put (record r { publish_outcome = outcome }) req_id t)
]

-- The task of the request, or the one that the factory starts, `created`.
unfoldable pub get_or_create_cleanup_task : String → ℕ → Tracker → ℕ × Tracker
get_or_create_cleanup_task req_id created t = elim (lookup req_id t.cleanup_tasks) [
  | none ↦ (created, record t { cleanup_tasks = insert req_id created t.cleanup_tasks })
  | some task ↦ (task, t)
]

-- `clear_cleanup_task`, and the callback `forget` of a task that is done
unfoldable pub clear_cleanup_task : String → ℕ → Tracker → Tracker
clear_cleanup_task req_id task t = elim (lookup req_id t.cleanup_tasks) [
  | none ↦ t
  | some current ↦
      if current == task then record t { cleanup_tasks = erase req_id t.cleanup_tasks } else t
]

-- The label of the path that a request has taken to its first token.
unfoldable pub path_of : RequestInfo → String
path_of r = if ltb 0 r.cached_prefix_tokens then "affinity" else "cold"

unfoldable pub record_first_token : String → ℕ → Tracker → Bool × Tracker
record_first_token req_id now t = elim (lookup req_id t.requests) [
  | none ↦ (false, t)
  | some r ↦
      if not (same_state r.state decoding)
      then (false, t)
      else if not (r.first_token_at == 0)
      then (false, t)
      else (
        true,
        record t {
          requests = insert req_id (record r { first_token_at = now }) t.requests;
          ttfts = t.ttfts ++ ttft_ms (record r { first_token_at = now }) ∷ [];
          stage_latencies =
              t.stage_latencies ++ (path_of r, ttft_ms (record r { first_token_at = now })) ∷ [];
        },
      )
]

unfoldable pub iter_by_state : SeqState → Tracker → List RequestInfo
iter_by_state state t = filter (λ r. same_state r.state state) (values t.requests)

abbrev pub all_requests : Tracker → List RequestInfo
all_requests t = values t.requests

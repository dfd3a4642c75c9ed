-- ===== src/Tracker/Moves.antt =====
-- Adding and removing requests: prism_serve/scheduler/sequence_state.py.
use prism_serve.Base.{
  ◌≡◌, none, some, arith, nat_key, text_key, pair_key, triple_key, str_eq_iff, assertion_error, ok,
  err,
}
use prism_serve.Base.Dict.{lookup-insert, lookup-erase}
use prism_serve.Tracker.State.{RequestInfo, Tracker}
use prism_serve.Tracker.Operations.{add, remove, get}

-- A request that is added under a new id is found, and removing it hands it back and leaves the id
-- free; adding it twice is refused and changes nothing.
pub add-remove :
    (r : RequestInfo) (t t' : Tracker)
    → add r t ≡ (ok tt, t')
    → (get r.req_id t' ≡ some r)
      × ((remove r.req_id t').0 ≡ some r)
      × (get r.req_id (remove r.req_id t').1 ≡ none)
      × (add r t' ≡ (err (assertion_error "duplicate request id"), t'))
unfolding add remove
add-remove r t t' h = ground (
  arith,
  lookup-insert r.req_id r.req_id r t.requests,
  lookup-erase r.req_id r.req_id t'.requests,
  str_eq_iff r.req_id r.req_id,
)

-- ===== src/Tracker/FirstToken.antt =====
-- The first token is recorded once: prism_serve/scheduler/sequence_state.py, `record_first_token`.
use prism_serve.Base.{
  ℕ, ◌-◌, ◌*◌, ◌≤◌, ◌<◌, String, ◌≡◌, refl, ap, ◌⊎◌, inl, inr, true, false, some, [], ◌∷◌, ◌++◌,
  arith, ltb, Bool-cases, nat_key, text_key, pair_key, triple_key, str_eq_refl,
}
use prism_serve.Base.Dict.{insert, lookup-insert}
use prism_serve.Base.Int.{pos}
use prism_serve.Tracker.State.{decoding, ordinal, RequestInfo, ttft_ms, Tracker}
use prism_serve.Tracker.Operations.{path_of, record_first_token, get}

abbrev marked : String → ℕ → RequestInfo → Tracker → Tracker
marked req_id now r t = record t {
  requests = insert req_id (record r { first_token_at = now }) t.requests;
  ttfts = t.ttfts ++ ttft_ms (record r { first_token_at = now }) ∷ [];
  stage_latencies =
      t.stage_latencies ++ (path_of r, ttft_ms (record r { first_token_at = now })) ∷ [];
}

first_time :
    (req_id : String) (now : ℕ) (t : Tracker) (r : RequestInfo)
    → get req_id t ≡ some r
    → r.state ≡ decoding
    → r.first_token_at ≡ 0
    → record_first_token req_id now t ≡ (true, marked req_id now r t)
unfolding record_first_token ordinal
first_time req_id now t r e s z = ground arith

second_time :
    (req_id : String) (now : ℕ) (t : Tracker) (r : RequestInfo)
    → get req_id t ≡ some r
    → 0 < r.first_token_at
    → record_first_token req_id now t ≡ (false, t)
unfolding record_first_token
second_time req_id now t r e z = ground arith

marked_there :
    (req_id : String) (now : ℕ) (t : Tracker) (r : RequestInfo)
    → get req_id (marked req_id now r t) ≡ some (record r { first_token_at = now })
marked_there req_id now t r = simp (lookup-insert, str_eq_refl)

ttft_lem :
    (now : ℕ) (r : RequestInfo)
    → 0 < now
    → r.arrived_at ≤ now
    → ttft_ms (record r { first_token_at = now }) ≡ pos ((now - r.arrived_at) * 1000)
unfolding ttft_ms
ttft_lem now r p q = ground arith

path_of-label :
    (r : RequestInfo)
    → ((path_of r ≡ "affinity") × (0 < r.cached_prefix_tokens))
      ⊎ ((path_of r ≡ "cold") × (r.cached_prefix_tokens ≡ 0))
unfolding path_of
path_of-label r = elim (Bool-cases (ltb 0 r.cached_prefix_tokens)) [
  | inl cached ↦ rw cached (inl (refl, ground (arith, cached)))
  | inr cold ↦ rw cold (inr (refl, ground (arith, cold)))
]

-- The first token of a decoding request is recorded with two observations of the time since its
-- arrival, one of them under the path that the request has taken: "affinity" where it has a cached
-- prefix, "cold" where it has none. A later first token of the request is refused and changes nothing.
-- (The clock is not at zero, and not before the arrival.)
pub record_first_token_once :
    (req_id : String) (now later : ℕ) (t : Tracker) (r : RequestInfo)
    → get req_id t ≡ some r
    → r.state ≡ decoding
    → r.first_token_at ≡ 0
    → 0 < now
    → r.arrived_at ≤ now
    → let (b, t') = record_first_token req_id now t in
      let latency = pos ((now - r.arrived_at) * 1000) in
      (b ≡ true)
      × (t'.ttfts ≡ t.ttfts ++ latency ∷ [])
      × ((path : String) × (t'.stage_latencies ≡ t.stage_latencies ++ (path, latency) ∷ [])
          × (((path ≡ "affinity") × (0 < r.cached_prefix_tokens))
              ⊎ ((path ≡ "cold") × (r.cached_prefix_tokens ≡ 0))))
      × (record_first_token req_id later t' ≡ (false, t'))
record_first_token_once req_id now later t r e s z p q = rw (first_time req_id now t r e s z) (
  refl,
  ap (λ o. t.ttfts ++ o ∷ []) (ttft_lem now r p q),
  (
    path_of r,
    ap (λ o. t.stage_latencies ++ (path_of r, o) ∷ []) (ttft_lem now r p q),
    path_of-label r,
  ),
  second_time req_id later (marked req_id now r t) (record r { first_token_at = now })
      (marked_there req_id now t r) p,
)

-- ===== src/Tracker/Deadlines.antt =====
-- Which requests are reported as stuck, and when, prism_serve/scheduler/sequence_state.py.
use prism_serve.Base.{
  ℕ, ◌-◌, ◌<◌, String, ◌≡◌, refl, sym, ap, subst, ◌∙◌, ◌↔◌, inl, inr, Bool, true, false, not, some,
  List, [], ◌∷◌, arith, ltb, if◌then◌else◌, Bool-cases, Option-cases, ◌==◌, nat_key, text_key,
  pair_key, triple_key, str_eq_refl, filter, ok, Among,
}
use prism_serve.Base.Dict.{Dict, values, lookup, lookup-insert}
use prism_serve.Tracker.State.{
  SeqState, waiting, affinity_loading, finished, aborted, kv_pending, prefilling, recomputing,
  decoding, prefix_prefilling, same_state, ordinal, RequestInfo, Tracker,
}
use prism_serve.Tracker.Operations.{transition, get, all_requests, enter}
use prism_serve.Tracker.Stamps.{
  Stamp, arrival, prefill, sent, recompute, suffix_prefill, decode_begin, read, KeepsStamps,
  read-enter, enter_state, marks,
}
use prism_serve.Tracker.Stuck.{
  is_stuck, is_prefill_stuck, is_recompute_stuck, is_decode_stuck, is_suffix_prefill_stuck, sort_by,
  get_stuck_requests, get_stuck_prefills, get_stuck_recomputes, get_stuck_decodes,
  get_stuck_suffix_prefills,
}
use prism_serve.Tracker.Sorting.{IsAscending, sort_by-IsAscending, Among-report}

-- The time that a phase with a deadline is measured from.
abbrev pub entry : SeqState → Stamp
entry kv_pending = sent
entry prefilling = prefill
entry recomputing = recompute
entry decoding = decode_begin
entry prefix_prefilling = suffix_prefill
entry _ = arrival

abbrev pub has_deadline : SeqState → Bool
has_deadline kv_pending = true
has_deadline prefilling = true
has_deadline recomputing = true
has_deadline decoding = true
has_deadline prefix_prefilling = true
has_deadline _ = false

-- The requests that are reported as stuck in a phase.
abbrev pub stuck_in : SeqState → ℕ → ℕ → Tracker → List RequestInfo
stuck_in kv_pending = get_stuck_requests
stuck_in prefilling = get_stuck_prefills
stuck_in recomputing = get_stuck_recomputes
stuck_in decoding = get_stuck_decodes
stuck_in prefix_prefilling = get_stuck_suffix_prefills
stuck_in _ = λ now timeout t. []

state_same : (s t : SeqState) → same_state s t ≡ true → s ≡ t
unfolding ordinal
state_same waiting t h = ground (arith, h)
state_same prefilling t h = ground (arith, h)
state_same kv_pending t h = ground (arith, h)
state_same recomputing t h = ground (arith, h)
state_same affinity_loading t h = ground (arith, h)
state_same prefix_prefilling t h = ground (arith, h)
state_same decoding t h = ground (arith, h)
state_same finished t h = ground (arith, h)
state_same aborted t h = ground (arith, h)

same_refl : (s t : SeqState) → s ≡ t → same_state s t ≡ true
unfolding ordinal
same_refl s t e = ground (arith, ap ordinal e)

-- A test of a phase and of the time in it.
reported :
    (phase : SeqState) (key : RequestInfo → ℕ) (now timeout : ℕ) (t : Tracker) (r : RequestInfo)
    → Among r (
        sort_by key (
          filter
            (λ r. if not (same_state r.state phase) then false else ltb timeout (now - key r))
            (values t.requests)))
      ↔ (Among r (all_requests t) × (r.state ≡ phase) × (timeout < now - key r))
reported phase key now timeout t r =
    let test : RequestInfo → Bool =
      λ r. if not (same_state r.state phase) then false else ltb timeout (now - key r) in
    let (f, g) = Among-report key test r (values t.requests) in
    (
      λ m.
          let (n, e) = f m in
          elim (Bool-cases (same_state r.state phase)) [
            | inl own ↦ (n, state_same r.state phase own, ground (arith, own, e))
            | inr other ↦ absurd (ground (arith, other, e))
          ],
      λ (n, s, l). g (n, ground (arith, same_refl r.state phase s, l)),
    )

-- The requests that are reported are those of the table that are in the phase and whose time in it
-- is over.
stuck_in-Among :
    (phase : SeqState) (now timeout : ℕ) (t : Tracker) (r : RequestInfo)
    → has_deadline phase ≡ true
    → Among r (stuck_in phase now timeout t)
      ↔ (Among r (all_requests t) × (r.state ≡ phase) × (timeout < now - read (entry phase) r))
unfolding is_stuck get_stuck_requests is_prefill_stuck get_stuck_prefills is_recompute_stuck
    get_stuck_recomputes is_decode_stuck get_stuck_decodes is_suffix_prefill_stuck
    get_stuck_suffix_prefills
stuck_in-Among kv_pending now timeout t r h =
    reported kv_pending (λ r. r.kv_sent_at) now timeout t r
stuck_in-Among prefilling now timeout t r h =
    reported prefilling (λ r. r.prefill_start) now timeout t r
stuck_in-Among recomputing now timeout t r h =
    reported recomputing (λ r. r.recompute_start) now timeout t r
stuck_in-Among decoding now timeout t r h = reported decoding (λ r. r.decode_start) now timeout t r
stuck_in-Among prefix_prefilling now timeout t r h =
    reported prefix_prefilling (λ r. r.suffix_prefill_started_at) now timeout t r
stuck_in-Among phase now timeout t r h = cc

stuck_in-IsAscending :
    (phase : SeqState) (now timeout : ℕ) (t : Tracker)
    → has_deadline phase ≡ true
    → IsAscending (read (entry phase)) (stuck_in phase now timeout t)
unfolding get_stuck_requests get_stuck_prefills get_stuck_recomputes get_stuck_decodes
    get_stuck_suffix_prefills
stuck_in-IsAscending kv_pending now timeout t h = sort_by-IsAscending (λ r. r.kv_sent_at) _
stuck_in-IsAscending prefilling now timeout t h = sort_by-IsAscending (λ r. r.prefill_start) _
stuck_in-IsAscending recomputing now timeout t h = sort_by-IsAscending (λ r. r.recompute_start) _
stuck_in-IsAscending decoding now timeout t h = sort_by-IsAscending (λ r. r.decode_start) _
stuck_in-IsAscending prefix_prefilling now timeout t h =
    sort_by-IsAscending (λ r. r.suffix_prefill_started_at) _
stuck_in-IsAscending phase now timeout t h = cc

entry_marked : (phase : SeqState) → has_deadline phase ≡ true → marks phase (entry phase) ≡ true
unfolding ordinal
entry_marked kv_pending h = refl
entry_marked prefilling h = refl
entry_marked recomputing h = refl
entry_marked decoding h = refl
entry_marked prefix_prefilling h = refl
entry_marked phase h = cc

entered_there :
    (req_id : String) (new : SeqState) (update : RequestInfo → RequestInfo) (now : ℕ)
    (t t' : Tracker)
    → transition req_id new update now t ≡ (ok tt, t')
    → (r : RequestInfo) × (get req_id t' ≡ some (enter new update now r))
unfolding transition
entered_there req_id new update now t t' h = elim (Option-cases (lookup req_id t.requests)) [
  | inl e ↦ absurd (ground (arith, e, h))
  | inr (r, e) ↦ (
    r,
    ground (
      arith,
      e,
      h,
      lookup-insert req_id req_id (enter new update now r) t.requests,
      str_eq_refl req_id,
    ),
  )
]

there-Among :
    (req_id : String) (r : RequestInfo) (d : Dict String RequestInfo)
    → lookup req_id d ≡ some r
    → Among r (values d)
unfolding lookup
there-Among req_id r [] h = cc
there-Among req_id r ((k, x) ∷ d) h = elim (Bool-cases (req_id == k)) [
  | inl same ↦ inl (ground (arith, same, h))
  | inr other ↦ inr (there-Among req_id r d (ground (arith, other, h)))
]

-- After a transition into a phase with a deadline, the request is reported as stuck in it as soon as
-- more than the timeout has passed since the transition, and not before; all that are reported are
-- the requests of the table that are in the phase and whose time in it is over by its own time stamp,
-- and the oldest come first. (The keyword arguments leave the times alone.)
pub get_stuck_lem :
    (phase : SeqState) (req_id : String) (update : RequestInfo → RequestInfo)
    (entered now timeout : ℕ) (t t' : Tracker)
    → has_deadline phase ≡ true
    → KeepsStamps update
    → transition req_id phase update entered t ≡ (ok tt, t')
    → (r : RequestInfo) × (get req_id t' ≡ some r)
      × (Among r (stuck_in phase now timeout t') ↔ (timeout < now - entered))
      × ((x : RequestInfo)
          → Among x (stuck_in phase now timeout t') ↔ (
              Among x (all_requests t')
              × (x.state ≡ phase)
              × (timeout < now - read (entry phase) x)))
      × IsAscending (read (entry phase)) (stuck_in phase now timeout t')
get_stuck_lem phase req_id update entered now timeout t t' h k e =
    let (r, there) = entered_there req_id phase update entered t t' e in
    let x = enter phase update entered r in
    let (f, g) = stuck_in-Among phase now timeout t' x h in
    let at : read (entry phase) x ≡ entered =
      read-enter phase update (entry phase) entered r k
      ∙ ap (λ (b : Bool). if b then entered else read (entry phase) r) (entry_marked phase h) in
    (
      x,
      there,
      (
        λ m. subst (λ n. timeout < now - n) at (f m).2,
        λ l. g (
          there-Among req_id x t'.requests there,
          enter_state phase update entered r,
          subst (λ n. timeout < now - n) (sym at) l,
        ),
      ),
      λ y. stuck_in-Among phase now timeout t' y h,
      stuck_in-IsAscending phase now timeout t' h,
    )

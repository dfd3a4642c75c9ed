-- ===== src/Tracker/Stamps.antt =====
-- The time stamps of a request over a row of transitions: prism_serve/scheduler/sequence_state.py.
use prism_serve.Base.{
  ℕ, String, ◌≡◌, refl, sym, ap, subst, ◌∙◌, inl, inr, Bool, false, ◌&&◌, ◌||◌, some, List, [], ◌∷◌,
  arith, if◌then◌else◌, Bool-cases, Option-cases, ◌==◌, nat_key, text_key, pair_key, triple_key,
  str_eq_refl, str_eq_iff, All,
}
use prism_serve.Base.Dict.{lookup, lookup-insert}
use prism_serve.Tracker.State.{
  SeqState, waiting, prefilling, kv_pending, recomputing, affinity_loading, prefix_prefilling,
  decoding, finished, aborted, ordinal, same_state, RequestInfo, Tracker,
}
use prism_serve.Tracker.Operations.{allowed, stamp, enter, transition, get}

-- The times that are kept of a request.
pub data Stamp : Type 0 where
  arrival prefill sent recompute affinity prefix_ready suffix_prefill decode_begin ending : Stamp

abbrev pub read : Stamp → RequestInfo → ℕ
read arrival r = r.arrived_at
read prefill r = r.prefill_start
read sent r = r.kv_sent_at
read recompute r = r.recompute_start
read affinity r = r.affinity_started_at
read prefix_ready r = r.prefix_ready_at
read suffix_prefill r = r.suffix_prefill_started_at
read decode_begin r = r.decode_start
read ending r = r.finished_at

-- The phases whose entry sets a time.
abbrev pub marks : SeqState → Stamp → Bool
marks new arrival = false
marks new prefill = same_state new prefilling
marks new sent = same_state new kv_pending
marks new recompute = same_state new recomputing
marks new affinity = same_state new affinity_loading
marks new prefix_ready = same_state new prefix_prefilling
marks new suffix_prefill = same_state new prefix_prefilling
marks new decode_begin = same_state new decoding
marks new ending = same_state new finished || same_state new aborted

-- Keyword arguments that leave the times alone.
abbrev pub KeepsStamps : (RequestInfo → RequestInfo) → Type 0
KeepsStamps update = (s : Stamp) (r : RequestInfo) → read s (update r) ≡ read s r

-- A call of `transition`.
pub record Move : Type 0 where
  pub req_id : String
  pub new_state : SeqState
  pub update : RequestInfo → RequestInfo
  pub now : ℕ

-- The tracker after a row of calls, those that raise included.
unfoldable pub moved : List Move → Tracker → Tracker
moved [] t = t
moved (m ∷ ms) t = moved ms (transition m.req_id m.new_state m.update m.now t).1

-- The phase of one request and one of its times, as a row of calls should leave them: a call on the
-- request moves along an edge of the table, and sets the times that its new phase marks.
abbrev pub followed : String → Stamp → List Move → SeqState × ℕ → SeqState × ℕ
followed req_id s [] p = p
followed req_id s (m ∷ ms) p = followed req_id s ms (
    if m.req_id == req_id && allowed p.0 m.new_state
    then (m.new_state, if marks m.new_state s then m.now else p.1)
    else p)

read-stamp :
    (new : SeqState) (s : Stamp) (now : ℕ) (r : RequestInfo)
    → read s (stamp new now r) ≡ (if marks new s then now else read s r)
unfolding stamp ordinal
read-stamp waiting s now r = ground arith
read-stamp prefilling s now r = ground arith
read-stamp kv_pending s now r = ground arith
read-stamp recomputing s now r = ground arith
read-stamp affinity_loading s now r = ground arith
read-stamp prefix_prefilling s now r = ground arith
read-stamp decoding s now r = ground arith
read-stamp finished s now r = ground arith
read-stamp aborted s now r = ground arith

pub read-enter :
    (new : SeqState) (update : RequestInfo → RequestInfo) (s : Stamp) (now : ℕ) (r : RequestInfo)
    → KeepsStamps update
    → read s (enter new update now r) ≡ (if marks new s then now else read s r)
unfolding enter
read-enter new update s now r k =
    same_read s (update (stamp new now r)) ∙ k s _ ∙ read-stamp new s now r
  where
    same_read : (s : Stamp) (x : RequestInfo) → read s (record x { state = new }) ≡ read s x
    same_read s x = ground arith

pub enter_state :
    (new : SeqState) (update : RequestInfo → RequestInfo) (now : ℕ) (s : RequestInfo)
    → (enter new update now s).state ≡ new
unfolding enter
enter_state new update now s = refl

other_get :
    (m : Move) (req_id : String) (t : Tracker)
    → (m.req_id == req_id) ≡ false
    → get req_id (transition m.req_id m.new_state m.update m.now t).1 ≡ get req_id t
unfolding transition
other_get m req_id t ne = elim (Option-cases (lookup m.req_id t.requests)) [
  | inl e ↦ rw (e, transition) refl
  | inr (r, e) ↦ elim (Bool-cases (allowed r.state m.new_state)) [
    | inl admitted ↦
        rw (e, admitted, transition)
          (ground (
            arith,
            lookup-insert req_id m.req_id (enter m.new_state m.update m.now r) t.requests,
            str_eq_iff req_id m.req_id,
            str_eq_iff m.req_id req_id,
            ne,
          ))
    | inr refused ↦ rw (e, refused, transition) refl
  ]
]

own_get :
    (m : Move) (t : Tracker) (r : RequestInfo)
    → get m.req_id t ≡ some r
    → get m.req_id (transition m.req_id m.new_state m.update m.now t).1
      ≡ some (if allowed r.state m.new_state then enter m.new_state m.update m.now r else r)
unfolding transition
own_get m t r e = elim (Bool-cases (allowed r.state m.new_state)) [
  | inl admitted ↦ rw (e, admitted, transition) (simp (lookup-insert, str_eq_refl))
  | inr refused ↦ rw (e, refused, transition) e
]

-- What one call leaves of a request.
one_move :
    (m : Move) (req_id : String) (t : Tracker) (r : RequestInfo)
    → KeepsStamps m.update
    → get req_id t ≡ some r
    → (r' : RequestInfo) × (get req_id (transition m.req_id m.new_state m.update m.now t).1
        ≡ some r')
      × ((s : Stamp) → (r'.state, read s r') ≡ followed req_id s (m ∷ []) (r.state, read s r))
unfolding enter
one_move m req_id t r k e = elim (Bool-cases (m.req_id == req_id)) [
  | inr other ↦ (r, other_get m req_id t other ∙ e, λ s. rw other refl)
  | inl own ↦
      let same = (str_eq_iff m.req_id req_id).0 own in
      let there = subst (λ i. get i t ≡ some r) (sym same) e in
      let after =
        subst
          (λ i.
            get i (transition m.req_id m.new_state m.update m.now t).1
            ≡ some (if allowed r.state m.new_state then enter m.new_state m.update m.now r else r))
          same (own_get m t r there) in
      elim (Bool-cases (allowed r.state m.new_state)) [
        | inl admitted ↦ (
          enter m.new_state m.update m.now r,
          after ∙ rw admitted refl,
          λ s.
              rw (own, admitted)
                (ap (λ n. (m.new_state, n)) (read-enter m.new_state m.update s m.now r k)),
        )
        | inr refused ↦ (r, after ∙ rw refused refl, λ s. rw (own, refused) refl)
      ]
]

-- After any row of calls of `transition`, on any requests and with those that raise among them: a
-- request of the table is in the phase that its own calls lead to along the edges of the table, and
-- each of its times is that of the last call that moved it into a phase which sets that time, or as it
-- was. (The keyword arguments leave the times alone.)
pub moved_stamped :
    (ms : List Move) (req_id : String) (t : Tracker) (r : RequestInfo)
    → All (λ m. KeepsStamps m.update) ms
    → get req_id t ≡ some r
    → (r' : RequestInfo) × (get req_id (moved ms t) ≡ some r')
      × ((s : Stamp) → (r'.state, read s r') ≡ followed req_id s ms (r.state, read s r))
unfolding moved
moved_stamped [] req_id t r k e = (r, e, λ s. refl)
moved_stamped (m ∷ ms) req_id t r k e =
    let (r1, e1, p) = one_move m req_id t r k.0 e in
    let (r2, e2, q) =
      moved_stamped ms req_id (transition m.req_id m.new_state m.update m.now t).1 r1 k.1 e1 in
    (r2, e2, λ s. q s ∙ ap (followed req_id s ms) (p s))

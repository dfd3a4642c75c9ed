-- ===== src/Tracker/Lifecycle.antt =====
-- The life of one request: prism_serve/scheduler/sequence_state.py.
use prism_serve.Base.{
  ℕ, ◌≡◌, refl, ap, Bool, true, false, List, [], ◌∷◌, arith, nat_key, text_key, pair_key,
  triple_key, any,
}
use prism_serve.Tracker.State.{
  SeqState, finished, aborted, ordinal, RequestInfo, decoding, same_state,
}
use prism_serve.Tracker.Operations.{successors, allowed, enter}
use prism_serve.Tracker.Stamps.{enter_state}

-- A row of allowed transitions of one request, with the phases that it enters, the last one first.
pub data Life (r : RequestInfo) : List SeqState → RequestInfo → Type 0 where
  begin : Life r [] r
  then_enter :
      {seen : List SeqState} {s : RequestInfo} (new : SeqState) (update : RequestInfo → RequestInfo)
      (now : ℕ)
      → Life r seen s
      → allowed s.state new ≡ true
      → Life r (new ∷ seen) (enter new update now s)

-- Decoding, or decoded.
abbrev pub past : SeqState → Bool
past decoding = true
past finished = true
past _ = false

abbrev pub is_terminal : SeqState → Bool
is_terminal finished = true
is_terminal aborted = true
is_terminal _ = false

terminal_step : (s t : SeqState) → allowed s t ≡ true → is_terminal s ≡ true → is_terminal t ≡ true
unfolding allowed successors ordinal
terminal_step finished t h e = ground arith
terminal_step aborted t h e = ground arith
terminal_step s t h e = cc

finished_after : (s : SeqState) → allowed s finished ≡ true → s ≡ decoding
unfolding allowed successors ordinal
finished_after decoding h = refl
finished_after s h = cc

-- A request that is finished or aborted stays so through any row of allowed transitions.
pub Life-terminal :
    {r s : RequestInfo} {seen : List SeqState}
    → Life r seen s
    → is_terminal r.state ≡ true
    → is_terminal s.state ≡ true
Life-terminal begin h = h
Life-terminal (then_enter {s = s} new update now l a) h =
    rw (enter_state new update now s) (terminal_step s.state new a (Life-terminal l h))

decoding_seen :
    {r s : RequestInfo} {seen : List SeqState}
    → Life r seen s
    → past r.state ≡ false
    → past s.state ≡ true
    → any (same_state decoding) seen ≡ true
decoding_seen begin h e = cc
decoding_seen (then_enter {s = s} decoding update now l a) h e = ground arith
decoding_seen (then_enter {seen = seen} {s = s} finished update now l a) h e =
    ground (arith, decoding_seen l h (ap past (finished_after s.state a)))
decoding_seen (then_enter {s = s} new update now l a) h e =
    absurd (cc (enter_state new update now s))

-- A request whose row of allowed transitions begins in a phase other than decoding and finished, and
-- ends as finished, has been decoding on the way.
pub Life-finished :
    {r s : RequestInfo} {seen : List SeqState}
    → Life r seen s
    → past r.state ≡ false
    → s.state ≡ finished
    → any (same_state decoding) seen ≡ true
Life-finished l h e = decoding_seen l h (ap past e)

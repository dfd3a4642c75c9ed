-- ===== src/Governor/Budget.antt =====
-- The retry budget: prism_serve/scheduler/transfer_governor.py, `on_transfer_failure`.
use prism_serve.Base.{
  ℕ, zero, suc, ◌+◌, ◌≤◌, ◌<◌, String, ◌≡◌, refl, ap, none, List, [], ◌∷◌, arith, get_or, nat_key,
  text_key, pair_key, str_eq_refl,
}
use prism_serve.Base.Dict.{lookup, insert, erase, lookup-insert}
use prism_serve.Governor.State.{Governor}
use prism_serve.Governor.Retry.{Decision, recompute, abort, on_transfer_failure}

-- The answers to a row of failures of one request.
unfoldable pub failures : ℕ → String → Governor → List Decision
failures zero req_id g = []
failures (suc n) req_id g = let (d, g') = on_transfer_failure req_id g in d ∷ failures n req_id g'

abbrev pub repeat_recompute : ℕ → List Decision → List Decision
repeat_recompute zero ds = ds
repeat_recompute (suc n) ds = recompute ∷ repeat_recompute n ds

abbrev count : String → Governor → ℕ
count req_id g = get_or (lookup req_id g.recompute_counts) 0

with_count : (req_id : String) (g : Governor) → Governor
with_count req_id g = record g {
  recompute_counts = insert req_id (count req_id g + 1) g.recompute_counts;
}

retried :
    (req_id : String) (g : Governor)
    → count req_id g < g.max_recompute
    → on_transfer_failure req_id g ≡ (recompute, with_count req_id g)
unfolding on_transfer_failure with_count
retried req_id g h = ground arith

spent :
    (req_id : String) (g : Governor)
    → g.max_recompute ≤ count req_id g
    → on_transfer_failure req_id g
      ≡ (abort, record g { recompute_counts = erase req_id g.recompute_counts })
unfolding on_transfer_failure
spent req_id g h = ground arith

count-with_count :
    (req_id : String) (g : Governor) → count req_id (with_count req_id g) ≡ count req_id g + 1
unfolding with_count
count-with_count req_id g = simp (lookup-insert, str_eq_refl)

with_count-max :
    (req_id : String) (g : Governor) → (with_count req_id g).max_recompute ≡ g.max_recompute
unfolding with_count
with_count-max req_id g = refl

failures_from :
    (n : ℕ) (req_id : String) (g : Governor)
    → count req_id g + n ≡ g.max_recompute
    → failures (suc n) req_id g ≡ repeat_recompute n (abort ∷ [])
unfolding failures
failures_from zero req_id g h = rw (spent req_id g (omega arith))
failures_from (suc n) req_id g h = rw (retried req_id g (omega arith)) (
    ap (◌∷◌ recompute) (
      failures_from n req_id (with_count req_id g)
        (omega (arith, count-with_count req_id g, with_count-max req_id g))))

-- For a request with no failure on record, as many failures as the budget allows are answered by
-- recompute, and the next one by an abort.
pub failures_budget :
    (req_id : String) (g : Governor)
    → lookup req_id g.recompute_counts ≡ none
    → failures (suc g.max_recompute) req_id g ≡ repeat_recompute g.max_recompute (abort ∷ [])
failures_budget req_id g h =
    failures_from g.max_recompute req_id g (omega (arith, ap (λ o. get_or o 0) h))

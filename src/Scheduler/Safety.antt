-- ===== src/Scheduler/Safety.antt =====
-- What holds after any row of calls on a PDScheduler, prism_serve/scheduler/scheduler.py.
use prism_serve.Base.{
  ℕ, ◌≤◌, String, ◌≡◌, refl, ap, subst, ◌⊎◌, inl, inr, true, Option, none, some, List, [], ◌∷◌,
  arith, Option-cases, is_some, get_or, nat_key, text_key, pair_key, Among,
}
use prism_serve.Base.Dict.{Dict, keys, lookup}
use prism_serve.Scheduler.State.{Config, Env, PdScheduler, init}
use prism_serve.Scheduler.Pick.{
  prefill_candidate, decode_candidate, pick_prefill_instance, pick_decode_instance, epochs_of,
  decode_instance_epochs,
}
use prism_serve.Scheduler.Best.{Chosen, Among-lookup}
use prism_serve.Scheduler.Choice.{pick_decode_best, pick_prefill_best}
use prism_serve.Scheduler.Sound.{Within, Sound, init-Sound}
use prism_serve.Scheduler.Calls.{Call, step, step-Sound}

-- A row of calls, the last one first, each in an environment of its own.
unfoldable pub run : List (Env × Call) → Config → PdScheduler
run [] c = init c
run ((env, call) ∷ calls) c = step env call (run calls c)

pub run-Sound : (calls : List (Env × Call)) (c : Config) → Sound (run calls c)
unfolding run
run-Sound [] c = init-Sound c
run-Sound ((env, call) ∷ calls) c = step-Sound env call _ (run-Sound calls c)

none-some : {A : Type 0} {o : Option A} {a : A} → o ≡ none → o ≡ some a → ⊥
none-some e f = cc

not_fenced :
    (s : PdScheduler) (i : String) (o : Option ℕ) (n : ℕ)
    → ((is_some (lookup i s.quarantine_records) ≡ true) → o ≡ none)
    → o ≡ some n
    → lookup i s.quarantine_records ≡ none
not_fenced s i o n f e = elim (Option-cases (lookup i s.quarantine_records)) [
  | inl q ↦ q
  | inr (r, q) ↦ absurd (none-some (f (ap is_some q)) e)
]

-- After any row of calls, no pick of a prefill or of a decode instance returns one that is quarantined.
pub picks_avoid_quarantine :
    (calls : List (Env × Call)) (c : Config) (env : Env) (required : Option String) (i : String)
    → let s = run calls c in
      ((pick_decode_instance env required s).0 ≡ some i)
        ⊎ ((pick_prefill_instance env required s).0 ≡ some i)
      → lookup i (run calls c).quarantine_records ≡ none
picks_avoid_quarantine calls c env required i (inl e) =
    let v = run-Sound calls c in
    let s = run calls c in
    let w =
      subst (Chosen (decode_candidate env required s) (λ m n. m ≤ n) s.decode_free_slots) e
        (pick_decode_best env required s v.free_distinct).0 in
    not_fenced s i _ w.0 (λ h. ((v.at i).fenced h).1) w.1
picks_avoid_quarantine calls c env required i (inr e) =
    let v = run-Sound calls c in
    let s = run calls c in
    let w =
      subst (Chosen (prefill_candidate env required) (λ m n. n ≤ m) s.prefill_load) e
        (pick_prefill_best env required s v.load_distinct).0 in
    not_fenced s i _ w.0 (λ h. ((v.at i).fenced h).0) w.1

bounded : (a b : Option ℕ) (n : ℕ) → Within a b → a ≡ some n → n ≤ get_or b 0
bounded none b n w e = absurd (none-some refl e)
bounded (some m) none n w e = absurd w
bounded (some m) (some k) n w e = omega (arith, w, ap (λ o. get_or o 0) e)

-- After any row of calls, the free slots of a decode instance are at most its maximum.
pub free_slots_bounded :
    (calls : List (Env × Call)) (c : Config) (i : String) (n : ℕ)
    → lookup i (run calls c).decode_free_slots ≡ some n
    → n ≤ get_or (lookup i (run calls c).decode_max_slots) 0
free_slots_bounded calls c i n e = bounded _ _ n ((run-Sound calls c).at i).within e

epochs_found :
    (epochs : Dict String String) (d : Dict String ℕ)
    → ((i : String) (n : ℕ) → Among (i, n) d → is_some (lookup i epochs) ≡ true)
    → (r : Dict String String) × (epochs_of epochs (keys d) ≡ some r)
unfolding epochs_of
epochs_found epochs [] h = ([], refl)
epochs_found epochs ((i, n) ∷ d) h =
    let (r, e) = epochs_found epochs d (λ j m a. h j m (inr a)) in
    elim (Option-cases (lookup i epochs)) [
      | inl f ↦ absurd (ground (arith, f, h i n (inl refl)))
      | inr (x, f) ↦ ((i, x) ∷ r, rw (f, e, epochs_of) refl)
    ]

-- After any row of calls, `decode_instance_epochs` finds the epoch of every decode instance: it raises
-- no KeyError.
pub decode_instance_epochs_found :
    (calls : List (Env × Call)) (c : Config)
    → (r : Dict String String) × (decode_instance_epochs (run calls c) ≡ some r)
decode_instance_epochs_found calls c =
    let v = run-Sound calls c in
    let s = run calls c in
    epochs_found s.instance_epochs s.decode_free_slots (λ i n a.
      elim (Option-cases (lookup i s.instance_epochs)) [
        | inl e ↦ absurd (
            none-some ((v.at i).named e).1 (Among-lookup i n s.decode_free_slots v.free_distinct a))
        | inr (x, e) ↦ ap is_some e
      ])

-- ===== src/Registry/Invariant.antt =====
-- What an admitted worker is, after any row of calls: prism_serve/router/worker_registry.py.
use prism_serve.Base.{
  ℕ, ◌-◌, ◌≤◌, String, ◌≡◌, sym, ap, ◌∙◌, inl, inr, true, Option, none, some, List, [], ◌∷◌, arith,
  Bool-cases, Option-cases, get_or, ◌==◌, nat_key, text_key, pair_key, str_eq_iff,
}
use prism_serve.Base.Dict.{lookup, lookup_same, lookup_other}
use prism_serve.Registry.World.{
  WorkerIdentity, instance_epoch, PairCapability, ResourceSignal, Expectation, WorkerRegistry, init,
  by_key, is_valid_world, fail_world, install_world, observe_identity, observe_capabilities,
}
use prism_serve.Registry.Reports.{
  Report, freshness, put_signal, update_resource_report, signal_state, is_ready, is_fresh,
  can_admit,
}

-- A ready world was found valid as a whole, and every signal is of the current epoch of a member.
pub record Valid (r : WorkerRegistry) : Type 0 where
  pub world : is_ready r.state ≡ true → is_valid_world r.expected r.members r.capabilities ≡ true
  pub signals :
      (i : String) (signal : ResourceSignal)
      → lookup i r.resources ≡ some signal
      → (w : WorkerIdentity) × (lookup i r.members ≡ some w) × (signal.epoch ≡ instance_epoch w)

no_signal : {A : Type 0} {a : A} → none ≡ some a → ⊥
no_signal h = cc

init-Valid : (e : Expectation) → Valid (init e)
unfolding is_ready lookup
init-Valid e = record { world = λ h. cc; signals = λ i signal h. absurd (no_signal h) }

fail_world-Valid : (r : WorkerRegistry) → Valid (fail_world r)
unfolding fail_world is_ready lookup
fail_world-Valid r = record { world = λ h. cc; signals = λ i signal h. absurd (no_signal h) }

install_world-Valid :
    (ids : List WorkerIdentity) (caps : List PairCapability) (r : WorkerRegistry)
    → Valid (install_world ids caps r).1
unfolding install_world lookup
install_world-Valid ids caps r =
    elim (Bool-cases (
      is_valid_world r.expected (by_key (λ w. w.instance_id) ids [])
        (by_key (λ c. c.pair_id) caps []))) [
          | inl good ↦
              rw (good, install_world)
                (record { world = λ h. good; signals = λ i signal h. absurd (no_signal h) })
          | inr bad ↦ rw (bad, install_world) (fail_world-Valid r)
        ]

observe_identity-Valid :
    (w : WorkerIdentity) (r : WorkerRegistry) → Valid r → Valid (observe_identity w r).1
unfolding observe_identity
observe_identity-Valid w r v = ground (arith, v, fail_world-Valid r)

observe_capabilities-Valid :
    (caps : List PairCapability) (r : WorkerRegistry)
    → Valid r
    → Valid (observe_capabilities caps r).1
unfolding observe_capabilities
observe_capabilities-Valid caps r v = ground (arith, v, fail_world-Valid r)

put_signal-Valid :
    (now : ℕ) (i : String) (w : WorkerIdentity) (received_at : ℕ) (r : WorkerRegistry)
    → Valid r
    → lookup i r.members ≡ some w
    → Valid (put_signal now i w received_at r)
unfolding put_signal
put_signal-Valid now i w received_at r v e = record {
  world = v.world;
  signals = λ j signal h. elim (Bool-cases (j == i)) [
    | inl same ↦
        let j_is = (str_eq_iff j i).0 same in
        (
          w,
          ap (λ k. lookup k r.members) j_is ∙ e,
          ap (λ o. get_or (epoch_of o) "")
              (sym h
                ∙ ap (λ k. lookup k (put_signal now i w received_at r).resources) j_is
                ∙ lookup_same i _ r.resources),
        )
    | inr other ↦ v.signals j signal (sym (lookup_other j i _ r.resources other) ∙ h)
  ];
}
  where
    epoch_of : Option ResourceSignal → Option String
    epoch_of none = none
    epoch_of (some s) = some s.epoch

update_resource_report-Valid :
    (now : ℕ) (i : String) (p : Report) (received_at : Option ℕ) (r : WorkerRegistry)
    → Valid r
    → Valid (update_resource_report now i p received_at r).1
unfolding update_resource_report
update_resource_report-Valid now i p received_at r v = elim (Option-cases (lookup i r.members)) [
  | inl e ↦ rw (e, update_resource_report) v
  | inr (w, e) ↦
      rw (e, update_resource_report)
        (ground (arith, v, put_signal-Valid now i w (get_or received_at now) r v e))
]

pub data Call : Type 0 where
  installs : List WorkerIdentity → List PairCapability → Call
  observes : WorkerIdentity → Call
  observes_links : List PairCapability → Call
  reports : ℕ → String → Report → Option ℕ → Call

-- The registry after a row of calls, the last one first.
unfoldable pub run : List Call → Expectation → WorkerRegistry
run [] e = init e
run (installs ids caps ∷ calls) e = (install_world ids caps (run calls e)).1
run (observes w ∷ calls) e = (observe_identity w (run calls e)).1
run (observes_links caps ∷ calls) e = (observe_capabilities caps (run calls e)).1
run (reports now i p at ∷ calls) e = (update_resource_report now i p at (run calls e)).1

pub run-Valid : (calls : List Call) (e : Expectation) → Valid (run calls e)
unfolding run
run-Valid [] e = init-Valid e
run-Valid (installs ids caps ∷ calls) e = install_world-Valid ids caps (run calls e)
run-Valid (observes w ∷ calls) e = observe_identity-Valid w (run calls e) (run-Valid calls e)
run-Valid (observes_links caps ∷ calls) e =
    observe_capabilities-Valid caps (run calls e) (run-Valid calls e)
run-Valid (reports now i p at ∷ calls) e =
    update_resource_report-Valid now i p at (run calls e) (run-Valid calls e)

admitted-signal :
    (now : ℕ) (i : String) (r : WorkerRegistry)
    → can_admit now i r ≡ true
    → (is_ready r.state ≡ true)
      × ((signal : ResourceSignal) × (lookup i r.resources ≡ some signal)
          × (now - signal.received_at ≤ r.expected.stale_after))
unfolding can_admit signal_state is_fresh freshness
admitted-signal now i r h = elim (Option-cases (lookup i r.resources)) [
  | inl e ↦ absurd (ground (arith, e, h))
  | inr (signal, e) ↦ (ground (arith, e, h), (signal, e, ground (arith, e, h)))
]

-- After any row of calls, a worker that is admitted is a member of a world that was valid as a whole,
-- and has reported in its current epoch no longer ago than the limit.
pub admitted_is_current :
    (calls : List Call) (e : Expectation) (now : ℕ) (i : String)
    → can_admit now i (run calls e) ≡ true
    → let r = run calls e in
      (is_valid_world r.expected r.members r.capabilities ≡ true)
      × ((w : WorkerIdentity) × (signal : ResourceSignal) × (lookup i r.members ≡ some w)
          × (lookup i r.resources ≡ some signal)
          × (signal.epoch ≡ instance_epoch w)
          × (now - signal.received_at ≤ r.expected.stale_after))
admitted_is_current calls e now i h =
    let v = run-Valid calls e in
    let (up, (signal, here, age)) = admitted-signal now i (run calls e) h in
    let (w, known, epoch) = v.signals i signal here in
    (v.world up, (w, signal, known, here, epoch, age))

-- ===== src/Scheduler/Steps.antt =====
-- Each call keeps the invariant of PDScheduler: prism_serve/scheduler/scheduler.py.
use prism_serve.Base.{
  ℕ, ◌-◌, ◌≤◌, String, ◌≡◌, refl, sym, ap, subst, inl, inr, true, false, Option, none, some, List,
  arith, Bool-cases, Option-cases, is_some, ◌==◌, nat_key, text_key, pair_key, str_eq_iff,
}
use prism_serve.Base.Dict.{
  lookup, contains, insert, erase, lookup-insert, lookup_left, lookup_other, lookup_gone,
}
use prism_serve.Sample.{KvUsageSample}
use prism_serve.Scheduler.State.{Uncertain, QuarantineRecord, Env, PdScheduler}
use prism_serve.Scheduler.Instances.{
  open_capacity, register_role, or_legacy, register_instance, deregister_instance, merged,
  new_record, put_record, quarantine_instance, Report, report_error, lift_fence, reconcile_instance,
}
use prism_serve.Scheduler.Pick.{
  pick_prefill_instance, pick_decode_instance, update_kv_usage, join_queue, prefill_candidate,
}
use prism_serve.Scheduler.Leases.{take_back}
use prism_serve.Scheduler.Feedback.{on_prefill_done}
use prism_serve.Scheduler.Sound.{Sound, take_back-Sound, same_capacity-Sound, set_load-Sound}
use prism_serve.Scheduler.Arrival.{dropped-Sound, prefill_opened-Sound, decode_opened-Sound}
use prism_serve.Scheduler.Best.{Chosen}
use prism_serve.Scheduler.Choice.{join, pick_decode_best, pick_prefill_best}

module _ (s : PdScheduler) (v : Sound s) where
  pub pick_decode-Sound :
      (env : Env) (required : Option String) → Sound (pick_decode_instance env required s).1
  pick_decode-Sound env required =
      let (c, e) = pick_decode_best env required s v.free_distinct in
      subst Sound (sym e) (result (pick_decode_instance env required s).0)
    where
      result : (r : Option String) → Sound (elim r [ none ↦ s | some i ↦ take_back i s ])
      result none = v
      result (some i) = take_back-Sound s v i

  pub pick_prefill-Sound :
      (env : Env) (required : Option String) → Sound (pick_prefill_instance env required s).1
  unfolding join_queue
  pick_prefill-Sound env required =
      let (c, e) = pick_prefill_best env required s v.load_distinct in
      subst Sound (sym e) (result (pick_prefill_instance env required s).0 c)
    where
      result :
          (r : Option String)
          → Chosen (prefill_candidate env required) (λ m n. n ≤ m) s.prefill_load r
          → Sound (elim r [ none ↦ s | some i ↦ join i s ])
      result none c = v
      result (some i) c = set_load-Sound s v i c.0 _ c.1

  pub on_prefill_done-Sound :
      (i : String) (epoch : Option String) → Sound (on_prefill_done i epoch s).1
  unfolding on_prefill_done
  on_prefill_done-Sound i epoch = elim (Option-cases (lookup i s.prefill_load)) [
    | inl e ↦ rw (e, on_prefill_done) (ground (arith, v))
    | inr (n, e) ↦ rw (e, on_prefill_done) (ground (arith, v, set_load-Sound s v i n (n - 1) e))
  ]

  pub update_kv_usage-Sound :
      (i : String) (sample : Option KvUsageSample) → Sound (update_kv_usage i sample s)
  unfolding update_kv_usage
  update_kv_usage-Sound i none = same_capacity-Sound s v _ refl refl refl refl refl
  update_kv_usage-Sound i (some sample) = same_capacity-Sound s v _ refl refl refl refl refl

  pub deregister_instance-Sound : (i : String) → Sound (deregister_instance i s)
  unfolding deregister_instance
  deregister_instance-Sound i =
      dropped-Sound s _ v i refl refl refl (λ j h. lookup_left j i s.instance_epochs h)
        (λ j h. refl)

  -- The record of a quarantined instance is replaced.
  put_record-Sound :
      (i : String) (r r' : QuarantineRecord)
      → lookup i s.quarantine_records ≡ some r'
      → Sound (put_record i r s)
  unfolding put_record
  put_record-Sound i r r' e = record {
    free_distinct = v.free_distinct;
    load_distinct = v.load_distinct;
    at = λ j.
        let a = v.at j in
        record {
          within = a.within;
          fenced = λ h. a.fenced (still j h);
          named = a.named;
          single = a.single;
        };
  }
    where
      still :
          (j : String)
          → is_some (lookup j (insert i r s.quarantine_records)) ≡ true
          → is_some (lookup j s.quarantine_records) ≡ true
      still j h = ground (
        arith,
        lookup-insert j i r s.quarantine_records,
        str_eq_iff j i,
        ap (λ z. lookup z s.quarantine_records) {x = j} {y = i},
        e,
      )

  pub quarantine_instance-Sound :
      (env : Env) (i : String) (t d : Option Uncertain) → Sound (quarantine_instance env i t d s).1
  unfolding quarantine_instance put_record
  quarantine_instance-Sound env i t d = elim (Option-cases (lookup i s.quarantine_records)) [
    | inl e ↦
        rw (e, quarantine_instance)
          (dropped-Sound s _ v i refl refl refl (λ j h. refl)
            (λ j h. lookup_other j i (new_record env i t d s) s.quarantine_records h))
    | inr (r, e) ↦
        rw (e, quarantine_instance) (ground (arith, v, put_record-Sound i (merged t d r) r e))
  ]

  absent : {A : Type 0} (o : Option A) → is_some o ≡ false → o ≡ none
  absent none h = refl
  absent (some a) h = cc

  opened-Sound :
      (i role epoch : String) (max_slots : ℕ)
      → lookup i s.prefill_load ≡ none
      → lookup i s.decode_free_slots ≡ none
      → lookup i s.quarantine_records ≡ none
      → Sound (open_capacity i role max_slots epoch s)
  unfolding open_capacity
  opened-Sound i role epoch max_slots p f q = ground (
    arith,
    prefill_opened-Sound s v i epoch (insert i role s.instance_roles) s.quarantine_records p f q
        (λ j h. refl),
    decode_opened-Sound s v i epoch (insert i role s.instance_roles) s.quarantine_records p f q
        (λ j h. refl) max_slots,
  )

  register_role-Sound :
      (i role epoch : String) (max_slots : ℕ)
      → Sound (open_capacity i role max_slots epoch s)
      → Sound (register_role i role max_slots epoch s).1
  unfolding register_role
  register_role-Sound i role epoch max_slots w = ground (arith, v, w)

  pub register_instance-Sound :
      (i role : String) (max_slots : ℕ) (epoch : String) (ids : List String)
      → Sound (register_instance i role max_slots epoch ids s).1
  unfolding register_instance
  register_instance-Sound i role max_slots epoch ids =
      elim (Bool-cases (contains i s.quarantine_records)) [
        | inl there ↦ rw (there, register_instance) v
        | inr free ↦ elim (Option-cases (lookup i s.instance_epochs)) [
          | inr (x, e) ↦ rw (free, e, register_instance) (ground (arith, v))
          | inl e ↦
              rw (free, e, register_instance)
                (ground (
                  arith,
                  v,
                  register_role-Sound i role (or_legacy epoch i) max_slots (
                      opened-Sound i role (or_legacy epoch i) max_slots ((v.at i).named e).0
                        ((v.at i).named e).1 (absent (lookup i s.quarantine_records) free)),
                ))
        ]
      ]

  reopened-Sound :
      (i role epoch : String) (max_slots : ℕ)
      → is_some (lookup i s.quarantine_records) ≡ true
      → Sound (lift_fence i (open_capacity i role max_slots epoch s))
  unfolding open_capacity lift_fence
  reopened-Sound i role epoch max_slots h =
      let w = (v.at i).fenced h in
      let gone = lookup_gone i i s.quarantine_records ((str_eq_iff i i).1 refl) in
      elim (Bool-cases (role == "prefill")) [
        | inl e ↦
            rw (e, open_capacity)
              (prefill_opened-Sound s v i epoch _ (erase i s.quarantine_records) w.0 w.1 gone
                (λ j x. lookup_left j i s.quarantine_records x))
        | inr e ↦
            rw (e, open_capacity)
              (decode_opened-Sound s v i epoch _ (erase i s.quarantine_records) w.0 w.1 gone
                (λ j x. lookup_left j i s.quarantine_records x) max_slots)
      ]

  pub reconcile_instance-Sound : (i : String) (p : Report) → Sound (reconcile_instance i p s).1
  unfolding reconcile_instance
  reconcile_instance-Sound i p = elim (Option-cases (lookup i s.quarantine_records)) [
    | inl e ↦ rw (e, reconcile_instance) v
    | inr (r, e) ↦ elim (Option-cases (report_error p r)) [
      | inr (x, f) ↦ rw (e, f, reconcile_instance) v
      | inl f ↦
          rw (e, f, reconcile_instance)
            (reopened-Sound i p.role p.instance_epoch p.max_slots (ap is_some e))
    ]
  ]

-- ===== src/Scheduler/Arrival.antt =====
-- Instances that come and go keep the invariant of PDScheduler: prism_serve/scheduler/scheduler.py.
use prism_serve.Base.{
  ℕ, String, ◌≡◌, sym, ap, subst, ◌∙◌, inl, inr, false, none, some, arith, Bool-cases, Option-cases,
  is_some, ◌==◌, nat_key, text_key, pair_key, str_eq_iff,
}
use prism_serve.Base.Dict.{
  Dict, lookup, insert, erase, Distinct, insert-Distinct, erase-Distinct, lookup_gone, lookup_left,
  lookup_same, lookup_other,
}
use prism_serve.Scheduler.State.{QuarantineRecord, PdScheduler}
use prism_serve.Scheduler.Sound.{Within, SoundAt, Sound}

-- The capacity of an instance is dropped, and what stands in the other tables of it is free.
module _ (s s' : PdScheduler) (v : Sound s) (i : String) where
  pub dropped-Sound :
      s'.prefill_load ≡ erase i s.prefill_load
      → s'.decode_free_slots ≡ erase i s.decode_free_slots
      → s'.decode_max_slots ≡ erase i s.decode_max_slots
      → ((j : String) → (j == i) ≡ false → lookup j s'.instance_epochs ≡ lookup j s.instance_epochs)
      → ((j : String)
          → (j == i) ≡ false
          → lookup j s'.quarantine_records ≡ lookup j s.quarantine_records)
      → Sound s'
  dropped-Sound p f m e q = record {
    free_distinct = subst Distinct (sym f) (erase-Distinct i s.decode_free_slots v.free_distinct);
    load_distinct = subst Distinct (sym p) (erase-Distinct i s.prefill_load v.load_distinct);
    at = λ j. elim (Bool-cases (j == i)) [
      | inl same ↦
          let gone_p = ap (lookup j) p ∙ lookup_gone j i s.prefill_load same in
          let gone_f = ap (lookup j) f ∙ lookup_gone j i s.decode_free_slots same in
          let gone_m = ap (lookup j) m ∙ lookup_gone j i s.decode_max_slots same in
          record {
            within = rw (gone_f, gone_m) tt;
            fenced = λ h. (gone_p, gone_f);
            named = λ h. (gone_p, gone_f);
            single = λ h. gone_f;
          }
      | inr other ↦
          let a = v.at j in
          let kept_p = ap (lookup j) p ∙ lookup_left j i s.prefill_load other in
          let kept_f = ap (lookup j) f ∙ lookup_left j i s.decode_free_slots other in
          let kept_m = ap (lookup j) m ∙ lookup_left j i s.decode_max_slots other in
          record {
            within = rw (kept_f, kept_m) a.within;
            fenced = λ h.
                let w = a.fenced (sym (ap is_some (q j other)) ∙ h) in (kept_p ∙ w.0, kept_f ∙ w.1);
            named = λ h. let w = a.named (sym (e j other) ∙ h) in (kept_p ∙ w.0, kept_f ∙ w.1);
            single = λ h. kept_f ∙ a.single (sym (ap is_some kept_p) ∙ h);
          }
    ];
  }

-- Full capacity is opened for an instance that has none and is not quarantined in the new table.
module _ (s : PdScheduler) (v : Sound s) (i epoch : String) (roles : Dict String String)
    (records : Dict String QuarantineRecord) (no_load : lookup i s.prefill_load ≡ none)
    (no_free : lookup i s.decode_free_slots ≡ none) (free_again : lookup i records ≡ none)
    (others : (j : String)
      → (j == i) ≡ false
      → lookup j records ≡ lookup j s.quarantine_records) where
  some-none : {A : Type 0} {a : A} → some a ≡ none → ⊥
  some-none h = cc

  no_max : lookup i s.decode_max_slots ≡ none
  no_max = elim (Option-cases (lookup i s.decode_max_slots)) [
    | inl e ↦ e
    | inr (n, e) ↦
        absurd (subst (λ o. Within o (some n)) no_free (subst (Within _) e (v.at i).within))
  ]

  abbrev pub prefill_opened : PdScheduler
  prefill_opened = record s {
    prefill_load = insert i 0 s.prefill_load;
    instance_epochs = insert i epoch s.instance_epochs;
    instance_roles = roles;
    quarantine_records = records;
  }

  pub prefill_opened-Sound : Sound prefill_opened
  prefill_opened-Sound = record {
    free_distinct = v.free_distinct;
    load_distinct = insert-Distinct i 0 s.prefill_load v.load_distinct;
    at = λ j. elim (Bool-cases (j == i)) [
      | inl same ↦
          subst (λ k. SoundAt k prefill_opened) (sym ((str_eq_iff j i).0 same))
            (record {
              within = (v.at i).within;
              fenced = λ h. absurd (ground (arith, free_again));
              named = λ h. absurd (some-none (sym (lookup_same i epoch s.instance_epochs) ∙ h));
              single = λ h. no_free;
            })
      | inr other ↦
          let a = v.at j in
          let kept_p = lookup_other j i 0 s.prefill_load other in
          record {
            within = a.within;
            fenced = λ h.
                let w = a.fenced (sym (ap is_some (others j other)) ∙ h) in (kept_p ∙ w.0, w.1);
            named = λ h.
                let w = a.named (sym (lookup_other j i epoch s.instance_epochs other) ∙ h) in
                (kept_p ∙ w.0, w.1);
            single = λ h. a.single (sym (ap is_some kept_p) ∙ h);
          }
    ];
  }

  abbrev pub decode_opened : ℕ → PdScheduler
  decode_opened max_slots = record s {
    decode_free_slots = insert i max_slots s.decode_free_slots;
    decode_max_slots = insert i max_slots s.decode_max_slots;
    instance_epochs = insert i epoch s.instance_epochs;
    instance_roles = roles;
    quarantine_records = records;
  }

  pub decode_opened-Sound : (max_slots : ℕ) → Sound (decode_opened max_slots)
  decode_opened-Sound n = record {
    free_distinct = insert-Distinct i n s.decode_free_slots v.free_distinct;
    load_distinct = v.load_distinct;
    at = λ j. elim (Bool-cases (j == i)) [
      | inl same ↦
          subst (λ k. SoundAt k (decode_opened n)) (sym ((str_eq_iff j i).0 same))
            (record {
              within =
                  subst (λ o. Within o (lookup i (insert i n s.decode_max_slots)))
                    (sym (lookup_same i n s.decode_free_slots))
                    (subst (Within (some n)) (sym (lookup_same i n s.decode_max_slots))
                      (omega arith));
              fenced = λ h. absurd (ground (arith, free_again));
              named = λ h. absurd (some-none (sym (lookup_same i epoch s.instance_epochs) ∙ h));
              single = λ h. absurd (ground (arith, no_load));
            })
      | inr other ↦
          let a = v.at j in
          let kept_f = lookup_other j i n s.decode_free_slots other in
          record {
            within =
                subst (λ o. Within o (lookup j (insert i n s.decode_max_slots))) (sym kept_f)
                  (subst (Within _) (sym (lookup_other j i n s.decode_max_slots other)) a.within);
            fenced = λ h.
                let w = a.fenced (sym (ap is_some (others j other)) ∙ h) in (w.0, kept_f ∙ w.1);
            named = λ h.
                let w = a.named (sym (lookup_other j i epoch s.instance_epochs other) ∙ h) in
                (w.0, kept_f ∙ w.1);
            single = λ h. kept_f ∙ a.single h;
          }
    ];
  }

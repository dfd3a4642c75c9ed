-- ===== src/Scheduler/Sound.antt =====
-- The invariant of PDScheduler and the updates that keep it: prism_serve/scheduler/scheduler.py.
use prism_serve.Scheduler.Feedback.{free_one}
use prism_serve.Scheduler.Leases.{take_back, give_back, put_lease}
use prism_serve.Base.{
  ℕ, ◌≤◌, String, ◌≡◌, refl, sym, ap, subst, ◌∙◌, inl, inr, true, Option, none, some, arith,
  Bool-cases, is_some, get_or, ◌==◌, nat_key, text_key, pair_key, str_eq_iff, Option-cases, ◌-◌,
  min, leb, ◌+◌,
}
use prism_serve.Base.Dict.{
  lookup, insert, Distinct, lookup_same, lookup_other, insert-Distinct, lookup-insert,
}
use prism_serve.Scheduler.State.{Config, PdScheduler, init, DecodeSlotLease}

-- Free slots are counted for exactly the instances that have a maximum, and stay within it.
abbrev pub Within : Option ℕ → Option ℕ → Type 0
Within none none = Unit
Within (some n) (some m) = n ≤ m
Within _ _ = ⊥

-- What holds of one instance. Capacity is either that of a prefill or of a decode instance, its
-- epoch is known, and it is not quarantined.
pub record SoundAt (i : String) (s : PdScheduler) : Type 0 where
  pub within : Within (lookup i s.decode_free_slots) (lookup i s.decode_max_slots)
  pub fenced :
      is_some (lookup i s.quarantine_records) ≡ true
      → (lookup i s.prefill_load ≡ none) × (lookup i s.decode_free_slots ≡ none)
  pub named :
      lookup i s.instance_epochs ≡ none
      → (lookup i s.prefill_load ≡ none) × (lookup i s.decode_free_slots ≡ none)
  pub single : is_some (lookup i s.prefill_load) ≡ true → lookup i s.decode_free_slots ≡ none

pub record Sound (s : PdScheduler) : Type 0 where
  pub free_distinct : Distinct s.decode_free_slots
  pub load_distinct : Distinct s.prefill_load
  pub at : (i : String) → SoundAt i s

pub init-Sound : (c : Config) → Sound (init c)
unfolding lookup
init-Sound c = record {
  free_distinct = tt;
  load_distinct = tt;
  at = λ i. record {
    within = tt;
    fenced = λ h. (refl, refl);
    named = λ h. (refl, refl);
    single = λ h. refl;
  };
}

Within-lower : (a b : Option ℕ) (n k : ℕ) → Within a b → a ≡ some n → k ≤ n → Within (some k) b
Within-lower none b n k w e h = cc
Within-lower (some m) none n k w e h = w
Within-lower (some m) (some c) n k w e h = omega (arith, w, ap (λ o. get_or o 0) e, h)

Within-bound :
    (a b : Option ℕ) (n k : ℕ) → Within a b → a ≡ some n → k ≤ get_or b 0 → Within (some k) b
Within-bound none b n k w e h = cc
Within-bound (some m) none n k w e h = w
Within-bound (some m) (some c) n k w e h = h

-- A decode instance's count of free slots is set anew, within its maximum.
abbrev pub set_free : String → ℕ → PdScheduler → PdScheduler
set_free i k s = record s { decode_free_slots = insert i k s.decode_free_slots }

module _ (s : PdScheduler) (v : Sound s) where
  set_free-SoundAt :
      (i : String) (n k : ℕ)
      → lookup i s.decode_free_slots ≡ some n
      → Within (some k) (lookup i s.decode_max_slots)
      → (j : String) → SoundAt j (set_free i k s)
  set_free-SoundAt i n k e w j = elim (Bool-cases (j == i)) [
    | inl same ↦
        let j_is = (str_eq_iff j i).0 same in
        let a = v.at i in
        subst (λ j'. SoundAt j' (set_free i k s)) (sym j_is)
          (record {
            within =
                subst (λ o. Within o (lookup i s.decode_max_slots))
                  (sym (lookup_same i k s.decode_free_slots)) w;
            fenced = λ h. absurd (ground (arith, a.fenced h, e));
            named = λ h. absurd (ground (arith, a.named h, e));
            single = λ h. absurd (ground (arith, a.single h, e));
          })
    | inr other ↦
        let a = v.at j in
        let there = lookup_other j i k s.decode_free_slots other in
        record {
          within = subst (λ o. Within o (lookup j s.decode_max_slots)) (sym there) a.within;
          fenced = λ h. ((a.fenced h).0, there ∙ (a.fenced h).1);
          named = λ h. ((a.named h).0, there ∙ (a.named h).1);
          single = λ h. there ∙ a.single h;
        }
  ]

  pub set_free-Sound :
      (i : String) (n k : ℕ)
      → lookup i s.decode_free_slots ≡ some n
      → Within (some k) (lookup i s.decode_max_slots)
      → Sound (set_free i k s)
  set_free-Sound i n k e w = record {
    free_distinct = insert-Distinct i k s.decode_free_slots v.free_distinct;
    load_distinct = v.load_distinct;
    at = set_free-SoundAt i n k e w;
  }

  pub take_back-Sound : (i : String) → Sound (take_back i s)
  unfolding take_back
  take_back-Sound i = elim (Option-cases (lookup i s.decode_free_slots)) [
    | inl e ↦ rw (e, take_back) v
    | inr (n, e) ↦
        rw (e, take_back)
          (set_free-Sound i n (n - 1) e (
            Within-lower (lookup i s.decode_free_slots) (lookup i s.decode_max_slots) n (n - 1)
              (v.at i).within e (omega arith)))
  ]

  pub give_back-Sound : (i : String) → Sound (give_back i s)
  unfolding give_back
  give_back-Sound i = elim (Option-cases (lookup i s.decode_free_slots)) [
    | inl e ↦ rw (e, give_back) v
    | inr (n, e) ↦
        rw (e, give_back)
          (set_free-Sound i n (min (get_or (lookup i s.decode_max_slots) 0) (n + 1)) e (
            Within-bound (lookup i s.decode_free_slots) (lookup i s.decode_max_slots) n
              (min (get_or (lookup i s.decode_max_slots) 0) (n + 1)) (v.at i).within e
              (omega arith)))
  ]

  pub free_one-Sound : (i : String) → Sound (free_one i s).1
  unfolding free_one
  free_one-Sound i = elim (Option-cases (lookup i s.decode_free_slots)) [
    | inl e ↦ rw (e, free_one) v
    | inr (n, e) ↦ elim (Bool-cases (leb (get_or (lookup i s.decode_max_slots) 0) n)) [
      | inl full ↦ rw (e, full, free_one) v
      | inr room ↦
          rw (e, room, free_one)
            (set_free-Sound i n (n + 1) e (
              Within-bound (lookup i s.decode_free_slots) (lookup i s.decode_max_slots) n (n + 1)
                (v.at i).within e (ground arith)))
    ]
  ]

  -- An update of what the invariant does not read.
  pub same_capacity-Sound :
      (s' : PdScheduler)
      → s'.prefill_load ≡ s.prefill_load
      → s'.decode_free_slots ≡ s.decode_free_slots
      → s'.decode_max_slots ≡ s.decode_max_slots
      → s'.instance_epochs ≡ s.instance_epochs
      → s'.quarantine_records ≡ s.quarantine_records
      → Sound s'
  same_capacity-Sound s' p f m e q = record {
    free_distinct = subst Distinct (sym f) v.free_distinct;
    load_distinct = subst Distinct (sym p) v.load_distinct;
    at = λ i.
        let a = v.at i in
        record {
          within =
              subst (λ d. Within (lookup i d) (lookup i s'.decode_max_slots)) (sym f)
                (subst (λ d. Within (lookup i s.decode_free_slots) (lookup i d)) (sym m) a.within);
          fenced = λ h. rw (p, f) (a.fenced (subst (λ d. is_some (lookup i d) ≡ true) q h));
          named = λ h. rw (p, f) (a.named (subst (λ d. lookup i d ≡ none) e h));
          single = λ h. rw f (a.single (subst (λ d. is_some (lookup i d) ≡ true) p h));
        };
  }

  pub put_lease-Sound :
      (operation_id : String) (l : DecodeSlotLease) → Sound (put_lease operation_id l s)
  unfolding put_lease
  put_lease-Sound operation_id l = same_capacity-Sound _ refl refl refl refl refl

  -- The length of a known queue is set anew.
  pub set_load-Sound :
      (i : String) (n k : ℕ)
      → lookup i s.prefill_load ≡ some n
      → Sound (record s { prefill_load = insert i k s.prefill_load })
  set_load-Sound i n k e = record {
    free_distinct = v.free_distinct;
    load_distinct = insert-Distinct i k s.prefill_load v.load_distinct;
    at = λ j.
        let a = v.at j in
        record {
          within = a.within;
          fenced = λ h. (absent j ((a.fenced h).0), (a.fenced h).1);
          named = λ h. (absent j ((a.named h).0), (a.named h).1);
          single = λ h. a.single (present j h);
        };
  }
    where
      absent :
          (j : String)
          → lookup j s.prefill_load ≡ none
          → lookup j (insert i k s.prefill_load) ≡ none
      absent j h = ground (
        arith,
        lookup-insert j i k s.prefill_load,
        str_eq_iff j i,
        ap (λ z. lookup z s.prefill_load) {x = j} {y = i},
        e,
      )

      present :
          (j : String)
          → is_some (lookup j (insert i k s.prefill_load)) ≡ true
          → is_some (lookup j s.prefill_load) ≡ true
      present j h = ground (
        arith,
        lookup-insert j i k s.prefill_load,
        str_eq_iff j i,
        ap (λ z. lookup z s.prefill_load) {x = j} {y = i},
        e,
      )

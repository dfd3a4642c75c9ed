-- ===== src/Routing/Choice.antt =====
-- What the router decides: prism_serve/router/router.py.
use prism_serve.Base.{
  ℕ, suc, ◌≤◌, ◌<◌, String, ◌≡◌, refl, sym, ap, subst, ◌∙◌, ◌⊎◌, inl, inr, true, false, List, [],
  ◌∷◌, ◌++◌, arith, Bool-cases, nat_key, text_key, pair_key, triple_key, All, Pairwise, All-append,
  All-map, Pairwise-last, append_nil, Among,
}
use prism_serve.Base.Order.{All-sorted}
use prism_serve.Base.Int.{pos}
use prism_serve.Prefix.Index.{CacheLocation, PrefixIndex}
use prism_serve.Routing.Fingerprint.{PromptFingerprint}
use prism_serve.Routing.Router.{
  Match, if_any, matches_from, iter_matches, finite, gains_less, CachedPrefixDecision,
  AffinityRouter, Question, differs, forced, decision_of, decide_target, concat_map,
  decide_location, decide_match, or_else, first_decided, precedes, iter_decisions,
}

pub All-Among : {A : Type 0} (P : A → Type 0) (xs : List A) (x : A) → All P xs → Among x xs → P x
All-Among P [] x h m = absurd m
All-Among P (y ∷ ys) x h (inl e) = subst P (sym e) h.0
All-Among P (y ∷ ys) x h (inr m) = All-Among P ys x h.1 m

All-concat_map :
    {A B : Type 0} (P : B → Type 0) (f : A → List B) (xs : List A)
    → ((x : A) → Among x xs → All P (f x))
    → All P (concat_map f xs)
All-concat_map P f [] h = tt
All-concat_map P f (x ∷ xs) h =
    All-append P (f x) (concat_map f xs) (h x (inl refl))
      (All-concat_map P f xs (λ y m. h y (inr m)))

module _ (r : AffinityRouter) (f : PromptFingerprint) (q : Question) where
  -- A decision for a location of a match and a candidate, as the question requires.
  pub record IsChosen (ms : List Match) (d : CachedPrefixDecision) : Type 0 where
    pub blocks : ℕ
    pub locations : List CacheLocation
    pub location : CacheLocation
    pub target : String
    pub matched : Among (blocks, locations) ms
    pub there : Among location locations
    pub candidate : Among target q.decode_candidates
    pub decided : d ≡ decision_of r f q blocks location target
    pub current : q.source_epoch_is_current location.instance_id location.instance_epoch ≡ true
    pub required :
        (differs q.required_cached_prefix_blocks blocks ≡ false)
        × (differs q.required_source location.instance_id ≡ false)
        × (differs q.required_target target ≡ false)
    pub paying :
        (forced q ≡ true)
        ⊎ (gains_less (finite (pos r.safety_margin_ms)) d.estimated_gain_ms ≡ true)

  decide_target-All :
      (P : CachedPrefixDecision → Type 0) (blocks : ℕ) (l : CacheLocation) (t : String)
      → (differs q.required_target t ≡ false
          → (forced q ≡ true)
            ⊎ (gains_less
                  (finite (pos r.safety_margin_ms))
                  (decision_of r f q blocks l t).estimated_gain_ms
                ≡ true)
          → P (decision_of r f q blocks l t))
      → All P (decide_target r f q blocks l t)
  unfolding decide_target
  decide_target-All P blocks l t h =
      let gain =
        gains_less (finite (pos r.safety_margin_ms))
          (decision_of r f q blocks l t).estimated_gain_ms in
      elim (Bool-cases (differs q.required_target t)) [
        | inl other ↦ rw other tt
        | inr wanted ↦ elim (Bool-cases (forced q)) [
          | inl must ↦ rw (wanted, must) (h wanted (inl must), tt)
          | inr free ↦ elim (Bool-cases gain) [
            | inl pays ↦ rw (wanted, free, pays) (h wanted (inr pays), tt)
            | inr costs ↦ rw (wanted, free, costs) tt
          ]
        ]
      ]

  decide_match-IsChosen :
      (m : Match) (ms : List Match) → Among m ms → All (IsChosen ms) (decide_match r f q m)
  unfolding decide_match decide_location
  decide_match-IsChosen (blocks, ls) ms a =
      elim (Bool-cases (differs q.required_cached_prefix_blocks blocks)) [
        | inl other ↦ rw other tt
        | inr wanted ↦ rw wanted (
            All-concat_map (IsChosen ms) (decide_location r f q blocks) ls (λ l al.
              elim (Bool-cases (differs q.required_source l.instance_id)) [
                | inl elsewhere ↦ rw elsewhere tt
                | inr from ↦
                    elim (Bool-cases (q.source_epoch_is_current l.instance_id l.instance_epoch)) [
                      | inr stale ↦ rw (from, stale) tt
                      | inl live ↦
                          rw (from, live)
                            (All-concat_map (IsChosen ms) (decide_target r f q blocks l)
                              q.decode_candidates
                              (λ t at. decide_target-All (IsChosen ms) blocks l t (λ w p. record {
                                blocks = blocks;
                                locations = ls;
                                location = l;
                                target = t;
                                matched = a;
                                there = al;
                                candidate = at;
                                decided = refl;
                                current = live;
                                required = (wanted, from, w);
                                paying = p;
                              })))
                    ]
              ]))
      ]

  -- The matches with more blocks than a decision has none.
  abbrev pub IsLongest : List Match → CachedPrefixDecision → Type 0
  IsLongest ms d =
      (m : Match) → Among m ms → d.cached_prefix_blocks < m.0 → decide_match r f q m ≡ []

  or_else-All :
      (P : CachedPrefixDecision → Type 0) (xs ys : List CachedPrefixDecision)
      → All P xs
      → (xs ≡ [] → All P ys)
      → All P (or_else xs ys)
  or_else-All P [] ys h g = g refl
  or_else-All P (d ∷ ds) ys h g = h

  first_decided-IsChosen :
      (ms all_ms : List Match)
      → ((m : Match) → Among m ms → Among m all_ms)
      → All (IsChosen all_ms) (first_decided r f q ms)
  unfolding first_decided
  first_decided-IsChosen [] all_ms h = tt
  first_decided-IsChosen (m ∷ ms) all_ms h =
      or_else-All (IsChosen all_ms) (decide_match r f q m) _
        (decide_match-IsChosen m all_ms (h m (inl refl)))
        (λ e. first_decided-IsChosen ms all_ms (λ n a. h n (inr a)))

  -- The decisions on a match have its blocks.
  IsChosen-blocks :
      (m : Match) (d : CachedPrefixDecision) → IsChosen (m ∷ []) d → d.cached_prefix_blocks ≡ m.0
  unfolding decision_of
  IsChosen-blocks m d c =
      ap (λ x. x.cached_prefix_blocks) c.decided
      ∙ elim c.matched [ inl e ↦ ap (λ x. x.0) e | inr a ↦ absurd a ]

  first_decided-IsLongest :
      (ms : List Match)
      → Pairwise (λ m n. n.0 < m.0) ms
      → All (IsLongest ms) (first_decided r f q ms)
  unfolding first_decided
  first_decided-IsLongest [] p = tt
  first_decided-IsLongest (m ∷ ms) p =
      or_else-All (IsLongest (m ∷ ms)) (decide_match r f q m) _
        (All-map _ _
          (λ d c n a less. elim a [
            | inl s ↦ absurd (omega (arith, less, IsChosen-blocks m d c, ap (λ x. x.0) s))
            | inr t ↦ absurd (omega (arith, less, IsChosen-blocks m d c, All-Among _ ms n p.0 t))
          ])
          _ (decide_match-IsChosen m (m ∷ []) (inl refl)))
        (λ e.
          All-map _ _
            (λ d h n a less. elim a [
              | inl s ↦ subst (λ k. decide_match r f q k ≡ []) (sym s) e
              | inr t ↦ h n t less
            ])
            _ (first_decided-IsLongest ms p.1))

descending_if_any :
    (ms : List Match) (b : ℕ) (ls : List CacheLocation)
    → Pairwise (λ m n. n.0 < m.0) ms
    → All (λ m. b < m.0) ms
    → Pairwise (λ m n. n.0 < m.0) (ms ++ if_any b ls) × All (λ m. b ≤ m.0) (ms ++ if_any b ls)
descending_if_any ms b [] p a = rw (append_nil ms) (p, All-map _ _ (λ m h. omega (arith, h)) ms a)
descending_if_any ms b (l ∷ ls) p a = (
  Pairwise-last _ ms (b, l ∷ ls) p a,
  All-append _ ms _ (All-map _ _ (λ m h. omega (arith, h)) ms a) (omega arith, tt),
)

-- The matches come with ever fewer blocks.
matches_from-descends :
    (index : PrefixIndex) (f : PromptFingerprint) (now b : ℕ) (hashes : List ℕ)
    → let ms = matches_from index f now b hashes in
      Pairwise (λ m n. n.0 < m.0) ms × All (λ m. b ≤ m.0) ms
unfolding matches_from
matches_from-descends index f now b [] = (tt, tt)
matches_from-descends index f now b (x ∷ xs) =
    let i = matches_from-descends index f now (suc b) xs in
    descending_if_any (matches_from index f now (suc b) xs) b _ i.0
      (All-map _ _ (λ m h. omega (arith, h)) _ i.1)

pub iter_decisions-Chosen :
    (r : AffinityRouter) (f : PromptFingerprint) (q : Question)
    → let ms = iter_matches r.index f q.now in
      All (IsChosen r f q ms) (iter_decisions r f q)
      × All (IsLongest r f q ms) (iter_decisions r f q)
unfolding iter_decisions iter_matches
iter_decisions-Chosen r f q =
    let ms = iter_matches r.index f q.now in
    (
      All-sorted precedes _ _ (first_decided-IsChosen r f q ms ms (λ m a. a)),
      All-sorted precedes _ _
          (first_decided-IsLongest r f q ms (matches_from-descends r.index f q.now 1 _).0),
    )

-- ===== src/Prefix/Events.antt =====
-- Events that are delivered again, and full reports: prism_serve/router/prefix_index.py.
use prism_serve.Base.{
  ℕ, ◌+◌, ◌≤◌, ◌≡◌, refl, sym, ap, subst, ◌∙◌, inl, inr, true, false, List, [], ◌∷◌, arith, leb,
  leb→le, Bool-cases, get_or, ◌==◌, nat_key, text_key, pair_key, All, Error, value_error,
  runtime_error, Result, ok, err, ◌>>=◌, ◌>>◌,
}
use prism_serve.Base.Dict.{insert, insert-lookup, insert_again}
use prism_serve.Prefix.Index.{
  Owner, PrefixEvent, PrefixIndex, is_owned, apply_event, apply_from, cursor_of, set_cursor,
  apply_events,
}

-- Events of one owner that a cursor has passed.
abbrev pub Passed : Owner → ℕ → List PrefixEvent → Type 0
Passed o c = All (λ e. (is_owned o e.location ≡ true) × (e.seq_no ≤ c))

abbrev value_of : Result ℕ → ℕ
value_of (ok n) = n
value_of (err e) = 0

no_result : {e : Error} {c : ℕ} → err e ≡ ok c → ⊥
no_result h = cc

module _ (o : Owner) (c : ℕ) (e : PrefixEvent) (es : List PrefixEvent) (p : PrefixIndex) where
  foreign-apply_from :
      is_owned o e.location ≡ false
      → apply_from o c (e ∷ es) p ≡ (err (value_error "prefix event owner mismatch"), p)
  unfolding apply_from
  foreign-apply_from h = rw (h, apply_from) refl

  skipped-apply_from :
      is_owned o e.location ≡ true
      → leb e.seq_no c ≡ true
      → apply_from o c (e ∷ es) p ≡ apply_from o c es p
  unfolding apply_from
  skipped-apply_from h k = rw (h, k, apply_from) refl

  gap-apply_from :
      is_owned o e.location ≡ true
      → leb e.seq_no c ≡ false
      → (e.seq_no == c + 1) ≡ false
      → apply_from o c (e ∷ es) p ≡ (err (runtime_error "event gap"), p)
  unfolding apply_from
  gap-apply_from h k g = rw (h, k, g, apply_from) refl

  next-apply_from :
      is_owned o e.location ≡ true
      → leb e.seq_no c ≡ false
      → (e.seq_no == c + 1) ≡ true
      → apply_from o c (e ∷ es) p ≡ (apply_event o e >> apply_from o e.seq_no es) p
  unfolding apply_from
  next-apply_from h k g = rw (h, k, g, apply_from) refl

after_event :
    (o : Owner) (e : PrefixEvent) (c' : ℕ) (es : List PrefixEvent) (p : PrefixIndex)
    → ((q : PrefixIndex)
        → (apply_from o e.seq_no es q).0 ≡ ok c'
        → (e.seq_no ≤ c') × Passed o c' es)
    → (r : Result (Unit {0})) (q : PrefixIndex)
    → (((λ (_ : PrefixIndex). (r, q)) >> apply_from o e.seq_no es) p).0 ≡ ok c'
    → (e.seq_no ≤ c') × Passed o c' es
after_event o e c' es p rest (ok _) q k = rest q k
after_event o e c' es p rest (err x) q k = absurd (no_result k)

apply_from-Passed :
    (o : Owner) (c c' : ℕ) (es : List PrefixEvent) (p : PrefixIndex)
    → (apply_from o c es p).0 ≡ ok c'
    → (c ≤ c') × Passed o c' es
unfolding apply_from
apply_from-Passed o c c' [] p h = (omega (arith, ap value_of h), tt)
apply_from-Passed o c c' (e ∷ es) p h = elim (Bool-cases (is_owned o e.location)) [
  | inr foreign ↦
      absurd (no_result (sym (ap (λ r. r.0) (foreign-apply_from o c e es p foreign)) ∙ h))
  | inl owned ↦ elim (Bool-cases (leb e.seq_no c)) [
    | inl old ↦
        let w =
          apply_from-Passed o c c' es p
            (sym (ap (λ r. r.0) (skipped-apply_from o c e es p owned old)) ∙ h) in
        (w.0, ((owned, omega (arith, leb→le e.seq_no c old, w.0)), w.1))
    | inr recent ↦ elim (Bool-cases (e.seq_no == c + 1)) [
      | inr gap ↦
          absurd (no_result (sym (ap (λ r. r.0) (gap-apply_from o c e es p owned recent gap)) ∙ h))
      | inl follows ↦
          let w =
            after_event o e c' es p (apply_from-Passed o e.seq_no c' es) (apply_event o e p).0
              (apply_event o e p).1
              (sym (ap (λ r. r.0) (next-apply_from o c e es p owned recent follows)) ∙ h) in
          (ground (arith, w.0, recent), ((owned, w.0), w.1))
    ]
  ]
]

Passed-apply_from :
    (o : Owner) (c : ℕ) (es : List PrefixEvent) (p : PrefixIndex)
    → Passed o c es
    → apply_from o c es p ≡ (ok c, p)
unfolding apply_from
Passed-apply_from o c [] p h = refl
Passed-apply_from o c (e ∷ es) p ((owned, seen), h) =
    skipped-apply_from o c e es p owned (ground (arith, seen)) ∙ Passed-apply_from o c es p h

-- What a batch leaves: its cursor, on what the loop left.
applied-state :
    (o : Owner) (c : ℕ) (r : Result ℕ) (q p : PrefixIndex)
    → (((λ (_ : PrefixIndex). (r, q)) >>= set_cursor o) p).0 ≡ ok c
    → (r ≡ ok c)
      × ((((λ (_ : PrefixIndex). (r, q)) >>= set_cursor o) p).1
          ≡ record q { last_seq = insert o c q.last_seq })
unfolding set_cursor
applied-state o c (ok n) q p h =
    (h, ap (λ k. record q { last_seq = insert o k q.last_seq }) (ap value_of h))
applied-state o c (err e) q p h = absurd (no_result h)

cursor_set :
    (o : Owner) (c : ℕ) (q : PrefixIndex)
    → cursor_of o (record q { last_seq = insert o c q.last_seq }) ≡ c
cursor_set o c q = ap (λ n. get_or n 0) (insert-lookup o c q.last_seq)

again :
    (o : Owner) (c : ℕ) (es : List PrefixEvent) (q : PrefixIndex)
    → Passed o c es
    → let p = record q { last_seq = insert o c q.last_seq } in apply_events o es p ≡ (ok c, p)
unfolding apply_events set_cursor
again o c es q h =
    let p = record q { last_seq = insert o c q.last_seq } in
    let e = ap (λ n. apply_from o n es p) (cursor_set o c q) ∙ Passed-apply_from o c es p h in
    ap (λ (x : Result ℕ × PrefixIndex). ((λ (_ : PrefixIndex). x) >>= set_cursor o) p) e
    ∙ ap (λ d. (ok c, record p { last_seq = d })) (insert_again o c c q.last_seq)

-- A batch of events that is accepted and then delivered again, as a whole, is accepted with the same
-- cursor and changes nothing.
pub apply_events_again :
    (o : Owner) (es : List PrefixEvent) (p : PrefixIndex) (c : ℕ)
    → (apply_events o es p).0 ≡ ok c
    → let p' = (apply_events o es p).1 in apply_events o es p' ≡ (ok c, p')
unfolding apply_events
apply_events_again o es p c h =
    let q = (apply_from o (cursor_of o p) es p).1 in
    let w = applied-state o c (apply_from o (cursor_of o p) es p).0 q p h in
    let seen = (apply_from-Passed o (cursor_of o p) c es p w.0).1 in
    subst (λ p'. apply_events o es p' ≡ (ok c, p')) (sym w.1) (again o c es q seen)

-- ===== src/Output/Extends.antt =====
-- What a reader has seen of a stream stays: prism_serve/gateway/output.py.
use prism_serve.Base.{
  ℕ, zero, suc, String, ◌≡◌, refl, sym, ap, subst, ◌∙◌, inl, inr, Bool, true, false, some, List, [],
  ◌∷◌, ◌++◌, arith, ltb, nat_beq_iff, Bool-cases, Option-cases, get_or, ◌==◌, nat_key, text_key,
  pair_key, str_eq_iff, length, take, Result, ok, err, ◌>>=◌,
}
use prism_serve.Base.Dict.{lookup, insert, lookup_same, lookup_other}
use prism_serve.Output.Buffer.{
  OutputState, OutputBuffer, empty_state, put_state, is_full, ensure, same_tokens, Cumulative,
  extended, commit, commit_counted, apply_cumulative,
}

-- A later state of a stream: more tokens at the end, and an end that stays.
abbrev pub IsLater : OutputState → OutputState → Type 0
IsLater o o' =
    ((rest : List ℕ) × (o'.token_ids ≡ o.token_ids ++ rest))
    × (o.terminal ≡ true → o'.terminal ≡ true)

append_nil : {A : Type 0} (xs : List A) → xs ≡ xs ++ []
append_nil [] = refl
append_nil (x ∷ xs) = ap (λ ys. x ∷ ys) (append_nil xs)

IsLater-refl : (o : OutputState) → IsLater o o
IsLater-refl o = (([], append_nil o.token_ids), λ h. h)

same_tokens_eq : (xs ys : List ℕ) → same_tokens xs ys ≡ true → xs ≡ ys
unfolding same_tokens
same_tokens_eq [] [] h = refl
same_tokens_eq [] (y ∷ ys) h = cc
same_tokens_eq (x ∷ xs) [] h = cc
same_tokens_eq (x ∷ xs) (y ∷ ys) h = ground (arith, same_tokens_eq xs ys, nat_beq_iff x y)

take_prefix : (n : ℕ) (xs : List ℕ) → (rest : List ℕ) × (xs ≡ take n xs ++ rest)
take_prefix zero xs = (xs, refl)
take_prefix (suc n) [] = ([], refl)
take_prefix (suc n) (x ∷ xs) = let (rest, e) = take_prefix n xs in (rest, ap (λ ys. x ∷ ys) e)

extended-IsLater :
    (c : Cumulative) (o : OutputState)
    → same_tokens (take (length o.token_ids) c.token_ids) o.token_ids ≡ true
    → IsLater o (extended c o)
unfolding extended
extended-IsLater c o h =
    let (rest, e) = take_prefix (length o.token_ids) c.token_ids in
    ((rest, e ∙ ap (λ ys. ys ++ rest) (same_tokens_eq _ _ h)), λ t. rw t refl)

-- Every stream of one buffer is in the other, in a later state.
abbrev pub Grows : OutputBuffer → OutputBuffer → Type 0
Grows b b' =
    (k : String) (o : OutputState)
    → lookup k b.states ≡ some o
    → (o' : OutputState) × (lookup k b'.states ≡ some o') × IsLater o o'

same_buffer : (b : OutputBuffer) → Grows b b
same_buffer b k o e = (o, e, IsLater-refl o)

put_state-Grows :
    (req_id : String) (o : OutputState) (b : OutputBuffer)
    → ((p : OutputState) → lookup req_id b.states ≡ some p → IsLater p o)
    → Grows b (put_state req_id o b)
unfolding put_state
put_state-Grows req_id o b l k p e = elim (Bool-cases (k == req_id)) [
  | inl same ↦
      let k_is = (str_eq_iff k req_id).0 same in
      (
        o,
        subst (λ j. lookup j (insert req_id o b.states) ≡ some o) (sym k_is)
            (lookup_same req_id o b.states),
        l p (subst (λ j. lookup j b.states ≡ some p) k_is e),
      )
  | inr other ↦ (p, lookup_other k req_id o b.states other ∙ e, IsLater-refl p)
]

some-eq : (o p : OutputState) → some o ≡ some p → o ≡ p
some-eq o p e = ap (λ q. get_or q o) e

commit-Grows :
    (req_id : String) (c : Cumulative) (o : OutputState) (b : OutputBuffer)
    → ((p : OutputState) → lookup req_id b.states ≡ some p → p ≡ o)
    → Grows b (commit req_id c o b).1
unfolding commit
commit-Grows req_id c o b known = elim (Bool-cases (ltb c.output_seq_no (length o.token_ids))) [
  | inl old ↦ rw (old, commit) (same_buffer b)
  | inr recent ↦
      elim (Bool-cases (same_tokens (take (length o.token_ids) c.token_ids) o.token_ids)) [
        | inl agree ↦
            rw (recent, agree, commit)
              (put_state-Grows req_id (extended c o) b (λ p e.
                subst (λ q. IsLater q (extended c o)) (sym (known p e))
                  (extended-IsLater c o agree)))
        | inr broken ↦ rw (recent, broken, commit) (same_buffer b)
      ]
]

commit_counted-Grows :
    (req_id : String) (c : Cumulative) (o : OutputState) (b : OutputBuffer)
    → ((p : OutputState) → lookup req_id b.states ≡ some p → p ≡ o)
    → Grows b (commit_counted req_id c o b).1
unfolding commit_counted
commit_counted-Grows req_id c o b known =
    elim (Bool-cases (c.output_seq_no == length c.token_ids)) [
      | inl counted ↦ rw (counted, commit_counted) (commit-Grows req_id c o b known)
      | inr wrong ↦ rw (wrong, commit_counted) (same_buffer b)
    ]

-- A later buffer of a later buffer is later.
append_assoc : {A : Type 0} (xs ys zs : List A) → (xs ++ ys) ++ zs ≡ xs ++ (ys ++ zs)
append_assoc [] ys zs = refl
append_assoc (x ∷ xs) ys zs = ap (λ l. x ∷ l) (append_assoc xs ys zs)

Grows-trans : (a b c : OutputBuffer) → Grows a b → Grows b c → Grows a c
Grows-trans a b c g h k o e =
    let (p, e', ((r, f), t)) = g k o e in
    let (q, e'', ((r', f'), t')) = h k p e' in
    (q, e'', ((r ++ r', f' ∙ ap (λ l. l ++ r') f ∙ append_assoc o.token_ids r r'), λ x. t' (t x)))

ensure-Grows : (req_id : String) (b : OutputBuffer) → Grows b (ensure req_id b).1
unfolding ensure
ensure-Grows req_id b = elim (Option-cases (lookup req_id b.states)) [
  | inr (o, e) ↦ rw (e, ensure) (same_buffer b)
  | inl e ↦ elim (Bool-cases (is_full b)) [
    | inl full ↦ rw (e, full, ensure) (same_buffer b)
    | inr room ↦
        rw (e, room, ensure)
          (put_state-Grows req_id empty_state b (λ p f. absurd (ground (arith, e, f))))
  ]
]

-- What `ensure` hands out is what the buffer then holds.
ensured :
    (req_id : String) (b : OutputBuffer) (o : OutputState)
    → (ensure req_id b).0 ≡ ok o
    → lookup req_id (ensure req_id b).1.states ≡ some o
unfolding ensure put_state
ensured req_id b o h = ground (arith, h, lookup_same req_id empty_state b.states)

-- No query of a stream, applied or refused, takes back a token that the buffer holds, of that or of any
-- other stream, or the mark that a stream has ended.
pub apply_cumulative-Grows :
    (req_id : String) (c : Cumulative) (still_current : Bool) (b : OutputBuffer)
    → Grows b (apply_cumulative req_id c still_current b).1
unfolding apply_cumulative
apply_cumulative-Grows req_id c false b = same_buffer b
apply_cumulative-Grows req_id c true b = result (ensure req_id b).0 refl
  where
    result :
        (r : Result OutputState)
        → (ensure req_id b).0 ≡ r
        → Grows b
            (((λ (_ : OutputBuffer). (r, (ensure req_id b).1)) >>= λ o. commit_counted req_id c o)
              b).1
    result (err x) e = ensure-Grows req_id b
    result (ok o) e =
        Grows-trans b (ensure req_id b).1 (commit_counted req_id c o (ensure req_id b).1).1
          (ensure-Grows req_id b)
          (commit_counted-Grows req_id c o (ensure req_id b).1
            (λ p f. some-eq p o (sym f ∙ ensured req_id b o e)))

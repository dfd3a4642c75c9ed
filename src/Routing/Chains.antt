-- ===== src/Routing/Chains.antt =====
-- The chain of hashes of a prompt, and how much of it may be reused:
-- prism_serve/router/fingerprint.py.
use prism_serve.Base.{
  ℕ, zero, suc, ◌+◌, ◌-◌, ◌*◌, ◌/◌, ◌%◌, ◌≤◌, ◌<◌, min, String, ◌≡◌, refl, sym, ap, subst, ◌∙◌, inl,
  inr, true, false, Option, none, some, List, [], ◌∷◌, ◌++◌, arith, ltb, Bool-cases, ◌==◌, nat_key,
  text_key, pair_key, triple_key, length, take, drop, length-append, length-drop, take-append,
  drop-append, assertion_error, Result, ok, err,
}
use native.Mathlib.Nat.{zero-mul, suc-mul, mul-le-mul_right, div-add-mod, mul_comm, mod-lt}
use prism_serve.Routing.Fingerprint.{
  BlockHash, chain_from, chain_hashes_of, keep_last, create, compute_chain_hashes,
  PromptFingerprint, max_reusable_blocks, with_hashes,
}

module _ (hash : BlockHash) (b : ℕ) (some_block : 0 < b) where
  -- The blocks that are hashed fill the prompt but for less than one block.
  chain_from-fills :
      (n : ℕ) (p : Option ℕ) (ts : List ℕ)
      → length ts ≤ n
      → (length (chain_from hash b n p ts) * b ≤ length ts)
        × (length ts < suc (length (chain_from hash b n p ts)) * b)
  unfolding chain_from
  chain_from-fills zero p ts h = (
    omega (arith, h, zero-mul b, suc-mul 0 b, some_block),
    omega (arith, h, suc-mul 0 b, zero-mul b, some_block),
  )
  chain_from-fills (suc n) p ts h = elim (Bool-cases (ltb (length ts) b)) [
    | inl short ↦
        rw short (omega (arith, zero-mul b), ground (arith, short, suc-mul 0 b, zero-mul b))
    | inr long ↦
        let i =
          chain_from-fills n (some (hash p (take b ts))) (drop b ts)
            (ground (arith, h, length-drop b ts, some_block)) in
        let c = length (chain_from hash b n (some (hash p (take b ts))) (drop b ts)) in
        rw long (
          ground (arith, i.0, long, length-drop b ts, suc-mul c b),
          ground (arith, i.1, long, length-drop b ts, suc-mul c b, suc-mul (suc c) b),
        )
  ]

  none_long : (ts us : List ℕ) → length (ts ++ us) ≤ 0 → ltb (length ts) b ≡ true
  none_long ts us k = ground (arith, k, length-append ts us, some_block)

  longer : (ts us : List ℕ) → ltb (length ts) b ≡ false → ltb (length (ts ++ us)) b ≡ false
  longer ts us e = ground (arith, e, length-append ts us)

  ltb-le : (ts : List ℕ) → ltb (length ts) b ≡ false → b ≤ length ts
  ltb-le ts e = ground (arith, e)

  -- More tokens leave the hashes of the complete blocks as they are.
  chain_from-extends :
      (m n : ℕ) (p : Option ℕ) (ts us : List ℕ)
      → length ts ≤ m
      → length (ts ++ us) ≤ n
      → (rest : List ℕ) × (chain_from hash b n p (ts ++ us) ≡ chain_from hash b m p ts ++ rest)
  unfolding chain_from
  chain_from-extends zero n p ts us h k = (chain_from hash b n p (ts ++ us), refl)
  chain_from-extends (suc m) zero p ts us h k = ([], rw (none_long ts us k) refl)
  chain_from-extends (suc m) (suc n) p ts us h k = elim (Bool-cases (ltb (length ts) b)) [
    | inl short ↦ (chain_from hash b (suc n) p (ts ++ us), rw short refl)
    | inr long ↦
        let r =
          chain_from-extends m n (some (hash p (take b ts))) (drop b ts) us
            (ground (arith, h, long, length-drop b ts, some_block))
            (ground (
              arith,
              k,
              long,
              length-append ts us,
              length-append (drop b ts) us,
              length-drop b ts,
              some_block,
            )) in
        (
          r.0,
          rw
              (
                long,
                longer ts us long,
                take-append b ts us (ltb-le ts long),
                drop-append b ts us (ltb-le ts long),
              )
              (ap (λ xs. hash p (take b ts) ∷ xs) r.1),
        )
  ]

unique_quotient : (b c d n : ℕ) → c * b ≤ n → n < suc c * b → d * b ≤ n → n < suc d * b → c ≡ d
unique_quotient b c d n h i j k = elim (Bool-cases (ltb c d)) [
  | inl less ↦
      absurd (omega (arith, i, j, mul-le-mul_right {m = suc c} {n = d} b (ground (arith, less))))
  | inr more ↦ elim (Bool-cases (ltb d c)) [
    | inl less ↦
        absurd (omega (arith, h, k, mul-le-mul_right {m = suc d} {n = c} b (ground (arith, less))))
    | inr same ↦ ground (arith, more, same)
  ]
]

-- As many hashes as there are complete blocks.
length-chain_hashes_of :
    (hash : BlockHash) (b : ℕ) (ts : List ℕ)
    → 0 < b
    → length (chain_hashes_of hash b ts) ≡ length ts / b
unfolding chain_hashes_of
length-chain_hashes_of hash b ts p =
    let f = chain_from-fills hash b p (length ts) none ts (omega arith) in
    let n = length ts in
    unique_quotient b _ (n / b) n f.0 f.1 (omega (arith, div-add-mod n b, mul_comm b (n / b)))
      (omega (arith, div-add-mod n b, mul_comm b (n / b), mod-lt n p, suc-mul (n / b) b))

abbrev LeavesSome : ℕ → ℕ → ℕ → Type 0
LeavesSome b n k = (k * b < n) × (n ≤ suc k * b)

whole_blocks : (b q n : ℕ) → 0 < b → 0 < n → q * b ≡ n → LeavesSome b n (min q (q - 1))
whole_blocks b zero n p r e = absurd (omega (arith, e, r, zero-mul b))
whole_blocks b (suc k) n p r e =
    subst (LeavesSome b n) (the_min k) (omega (arith, e, p, suc-mul k b), omega (arith, e))
  where
    the_min : (k : ℕ) → k ≡ min (suc k) (suc k - 1)
    the_min k = omega arith

part_block : (b q m n : ℕ) → m < b → 0 < m → q * b + m ≡ n → LeavesSome b n (min q (q - 0))
part_block b q m n p r e =
    subst (LeavesSome b n) (the_min q) (omega (arith, e, r), omega (arith, e, p, suc-mul q b))
  where
    the_min : (q : ℕ) → q ≡ min q (q - 0)
    the_min q = omega arith

-- Of so many tokens, the most blocks that leave a token over.
reusable_range : (b n : ℕ) → 0 < b → 0 < n → LeavesSome b n (min (n / b) (n / b - keep_last n b))
unfolding keep_last
reusable_range b n p q = elim (Bool-cases (n % b == 0)) [
  | inl whole ↦
      rw whole
        (whole_blocks b (n / b) n p q (ground (arith, div-add-mod n b, mul_comm b (n / b), whole)))
  | inr rest ↦ rw rest (
      part_block b (n / b) (n % b) n (mod-lt n p) (ground (arith, rest))
        (omega (arith, div-add-mod n b, mul_comm b (n / b))))
]

-- A fingerprint that is made has the hashes of its tokens.
abbrev Made : BlockHash → List ℕ → ℕ → Result PromptFingerprint → Type 0
Made hash ts b (err e) = Unit
Made hash ts b (ok f) =
    (0 < b) × (f.token_ids ≡ ts) × (f.block_size ≡ b) × (f.chain_hashes ≡ chain_hashes_of hash b ts)

compute_invalid :
    (hash : BlockHash) (ts : List ℕ) (b : ℕ)
    → (b == 0) ≡ true
    → compute_chain_hashes hash ts b ≡ err (assertion_error "invalid block size")
unfolding compute_chain_hashes
compute_invalid hash ts b e = rw e refl

compute_valid :
    (hash : BlockHash) (ts : List ℕ) (b : ℕ)
    → (b == 0) ≡ false
    → compute_chain_hashes hash ts b ≡ ok (chain_hashes_of hash b ts)
unfolding compute_chain_hashes
compute_valid hash ts b e = rw e refl

create-Made :
    (hash : BlockHash) (namespace kv context : String) (ts : List ℕ) (b : ℕ)
    → Made hash ts b (create hash namespace kv context ts b)
unfolding create with_hashes
create-Made hash namespace kv context ts b = elim (Bool-cases (b == 0)) [
  | inl invalid ↦
      subst (λ r. Made hash ts b (with_hashes namespace kv context ts b r))
        (sym (compute_invalid hash ts b invalid)) tt
  | inr valid ↦
      subst (λ r. Made hash ts b (with_hashes namespace kv context ts b r))
        (sym (compute_valid hash ts b valid)) (ground (arith, valid), refl, refl, refl)
]

-- The blocks of a fingerprint that may be reused leave at least one token to prefill, and no more
-- blocks would: the next one would reach the end of the prompt. They all have a hash. (The prompt
-- is not empty.)
pub max_reusable_blocks-last :
    (hash : BlockHash) (namespace kv context : String) (ts : List ℕ) (b : ℕ) (f : PromptFingerprint)
    → create hash namespace kv context ts b ≡ ok f
    → 0 < length ts
    → let k = max_reusable_blocks f in
      (k * f.block_size < length f.token_ids)
      × (length f.token_ids ≤ suc k * f.block_size)
      × (k ≤ length f.chain_hashes)
unfolding max_reusable_blocks
max_reusable_blocks-last hash namespace kv context ts b f e n =
    let m = subst (Made hash ts b) e (create-Made hash namespace kv context ts b) in
    let r = reusable_range b (length ts) m.0 n in
    rw (m.1, m.2, m.3, length-chain_hashes_of hash b ts m.0) (r.0, r.1, omega arith)

abbrev Extended : BlockHash → List ℕ → ℕ → Result (List ℕ) → Type 0
Extended hash ts b (err e) = Unit
Extended hash ts b (ok hashes) =
    (rest : List ℕ) × (compute_chain_hashes hash ts b ≡ ok (hashes ++ rest))

compute_chain_hashes-Extended :
    (hash : BlockHash) (ts us : List ℕ) (b : ℕ)
    → Extended hash (ts ++ us) b (compute_chain_hashes hash ts b)
unfolding chain_hashes_of
compute_chain_hashes-Extended hash ts us b = elim (Bool-cases (b == 0)) [
  | inl invalid ↦ subst (Extended hash (ts ++ us) b) (sym (compute_invalid hash ts b invalid)) tt
  | inr valid ↦
      let r =
        chain_from-extends hash b (ground (arith, valid)) (length ts) (length (ts ++ us)) none ts us
          (omega arith) (omega arith) in
      subst (Extended hash (ts ++ us) b) (sym (compute_valid hash ts b valid))
        (r.0, compute_valid hash (ts ++ us) b valid ∙ ap ok r.1)
]

-- Tokens that are added to a prompt leave the hashes of its complete blocks as they are.
pub compute_chain_hashes_extends :
    (hash : BlockHash) (ts us : List ℕ) (b : ℕ) (hashes : List ℕ)
    → compute_chain_hashes hash ts b ≡ ok hashes
    → (rest : List ℕ) × (compute_chain_hashes hash (ts ++ us) b ≡ ok (hashes ++ rest))
compute_chain_hashes_extends hash ts us b hashes e =
    subst (Extended hash (ts ++ us) b) e (compute_chain_hashes-Extended hash ts us b)

-- For a positive block size the loop ends with one hash for each complete block of the prompt.
pub compute_chain_hashes_ends :
    (hash : BlockHash) (ts : List ℕ) (b : ℕ)
    → 0 < b
    → (hashes : List ℕ) × (compute_chain_hashes hash ts b ≡ ok hashes)
      × (length hashes ≡ length ts / b)
compute_chain_hashes_ends hash ts b p = (
  chain_hashes_of hash b ts,
  compute_valid hash ts b (ground (arith, p)),
  length-chain_hashes_of hash b ts p,
)

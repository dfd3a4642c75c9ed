-- ===== src/Routing/Suffix.antt =====
-- A decision leaves tokens to prefill: prism_serve/router/router.py, prism_serve/router/fingerprint.py.
use prism_serve.Base.{
  ℕ, zero, suc, ◌+◌, ◌*◌, ◌≤◌, ◌<◌, String, ◌≡◌, sym, subst, List, [], ◌∷◌, ◌++◌, arith, nat_key,
  text_key, pair_key, triple_key, length, take, All, All-append, All-map, ok,
}
use native.Mathlib.Nat.{mul-le-mul_right}
use prism_serve.Prefix.Index.{CacheLocation, PrefixIndex}
use prism_serve.Routing.Fingerprint.{BlockHash, PromptFingerprint, create, max_reusable_blocks}
use prism_serve.Routing.Chains.{max_reusable_blocks-last}
use prism_serve.Routing.Router.{
  Match, if_any, matches_from, iter_matches, CachedPrefixDecision, AffinityRouter, Question,
  decision_of, iter_decisions,
}
use prism_serve.Routing.Choice.{All-Among, IsChosen, iter_decisions-Chosen}

within_if_any :
    (ms : List Match) (b n : ℕ) (ls : List CacheLocation)
    → All (λ m. m.0 < n) ms
    → b < n
    → All (λ m. m.0 < n) (ms ++ if_any b ls)
within_if_any ms b n [] a h = All-append _ ms [] a tt
within_if_any ms b n (l ∷ ls) a h = All-append _ ms _ a (h, tt)

matches_from-within :
    (index : PrefixIndex) (f : PromptFingerprint) (now b : ℕ) (hashes : List ℕ)
    → All (λ m. m.0 < b + length hashes) (matches_from index f now b hashes)
unfolding matches_from
matches_from-within index f now b [] = tt
matches_from-within index f now b (x ∷ xs) =
    within_if_any _ b (b + length (x ∷ xs)) _
      (All-map _ _ (λ m h. omega (arith, h)) _ (matches_from-within index f now (suc b) xs))
      (omega arith)

length-take : {A : Type 0} (n : ℕ) (xs : List A) → length (take n xs) ≤ n
length-take zero xs = omega arith
length-take (suc n) [] = omega arith
length-take (suc n) (x ∷ xs) = omega (arith, length-take n xs)

iter_matches-within :
    (index : PrefixIndex) (f : PromptFingerprint) (now : ℕ)
    → All (λ m. m.0 ≤ max_reusable_blocks f) (iter_matches index f now)
unfolding iter_matches
iter_matches-within index f now =
    All-map _ _ (λ m h. omega (arith, h, length-take (max_reusable_blocks f) f.chain_hashes)) _
      (matches_from-within index f now 1 (take (max_reusable_blocks f) f.chain_hashes))

chosen_prefix :
    (r : AffinityRouter) (f : PromptFingerprint) (q : Question) (d : CachedPrefixDecision)
    → IsChosen r f q (iter_matches r.index f q.now) d
    → d.cached_prefix_tokens ≤ max_reusable_blocks f * f.block_size
unfolding decision_of
chosen_prefix r f q d c =
    subst (λ x. x.cached_prefix_tokens ≤ max_reusable_blocks f * f.block_size) (sym c.decided)
      (mul-le-mul_right f.block_size (
        All-Among _ (iter_matches r.index f q.now) (c.blocks, c.locations)
          (iter_matches-within r.index f q.now) c.matched))

-- A decision for a fingerprint that is made of a prompt with a token leaves at least one token of
-- the prompt to prefill, whatever is in the prefix index.
pub iter_decisions_leave_a_token :
    (r : AffinityRouter) (q : Question) (hash : BlockHash) (namespace kv context : String)
    (ts : List ℕ) (b : ℕ) (f : PromptFingerprint)
    → create hash namespace kv context ts b ≡ ok f
    → 0 < length ts
    → All (λ d. d.cached_prefix_tokens < length f.token_ids) (iter_decisions r f q)
iter_decisions_leave_a_token r q hash namespace kv context ts b f e p =
    All-map _ _
      (λ d c. omega (
        arith,
        chosen_prefix r f q d c,
        (max_reusable_blocks-last hash namespace kv context ts b f e p).0,
      ))
      _ (iter_decisions-Chosen r f q).0

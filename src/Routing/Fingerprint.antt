-- ===== src/Routing/Fingerprint.antt =====
-- Fingerprints of prompts: prism_serve/router/fingerprint.py.
use prism_serve.Base.{
  ℕ, zero, suc, ◌-◌, ◌/◌, ◌%◌, min, String, Option, none, some, List, [], ◌∷◌, ltb, if◌then◌else◌,
  ◌==◌, nat_key, text_key, pair_key, triple_key, length, take, drop, assertion_error, Result, ok,
  err,
}

-- The hash of a block, chained to that of the block before it.
abbrev pub BlockHash : Type 0
BlockHash = Option ℕ → List ℕ → ℕ

-- The loop of `compute_chain_hashes`, for at most so many steps.
unfoldable pub chain_from : BlockHash → ℕ → ℕ → Option ℕ → List ℕ → List ℕ
chain_from hash block_size zero previous tokens = []
chain_from hash block_size (suc n) previous tokens =
    let digest = hash previous (take block_size tokens) in
    let rest = chain_from hash block_size n (some digest) (drop block_size tokens) in
    if ltb (length tokens) block_size then [] else digest ∷ rest

-- The hashes of the complete blocks: no more steps than tokens.
unfoldable pub chain_hashes_of : BlockHash → ℕ → List ℕ → List ℕ
chain_hashes_of hash block_size tokens = chain_from hash block_size (length tokens) none tokens

-- `compute_chain_hashes`
unfoldable pub compute_chain_hashes : BlockHash → List ℕ → ℕ → Result (List ℕ)
compute_chain_hashes hash tokens block_size =
    if block_size == 0
    then err (assertion_error "invalid block size")
    else ok (chain_hashes_of hash block_size tokens)

pub record PromptFingerprint : Type 0 where
  pub namespace : String
  pub kv_compatibility_id : String
  pub request_context_digest : String
  pub token_ids : List ℕ
  pub chain_hashes : List ℕ
  pub block_size : ℕ

-- What `create` makes of the hashes.
unfoldable pub with_hashes :
    String → String → String → List ℕ → ℕ → Result (List ℕ) → Result PromptFingerprint
with_hashes namespace kv_compatibility_id request_context_digest tokens block_size (err e) = err e
with_hashes namespace kv_compatibility_id request_context_digest tokens block_size (ok hashes) =
    ok (record {
      namespace = namespace;
      kv_compatibility_id = kv_compatibility_id;
      request_context_digest = request_context_digest;
      token_ids = tokens;
      chain_hashes = hashes;
      block_size = block_size;
    })

-- `PromptFingerprint.create`
unfoldable pub create : BlockHash → String → String → String → List ℕ → ℕ → Result PromptFingerprint
create hash namespace kv_compatibility_id request_context_digest tokens block_size =
    with_hashes namespace kv_compatibility_id request_context_digest tokens block_size
      (compute_chain_hashes hash tokens block_size)

-- `int(len(token_ids) % block_size == 0)`
unfoldable pub keep_last : ℕ → ℕ → ℕ
keep_last n block_size = if n % block_size == 0 then 1 else 0

unfoldable pub max_reusable_blocks : PromptFingerprint → ℕ
max_reusable_blocks f =
    let n = length f.token_ids in
    min (length f.chain_hashes) (n / f.block_size - keep_last n f.block_size)

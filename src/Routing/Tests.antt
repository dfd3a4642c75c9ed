-- ===== src/Routing/Tests.antt =====
-- Instances of the theorems on routing.
use prism_serve.Base.{
  ℕ, suc, ◌+◌, ◌*◌, ◌/◌, ◌≤◌, ◌<◌, ◌≡◌, refl, none, some, List, [], ◌∷◌, ◌++◌, arith, ◌==◌, nat_key,
  text_key, pair_key, triple_key, length, All, ok,
}
use prism_serve.Base.Dict.{lookup}
use prism_serve.Base.Order.{insort, sorted}
use prism_serve.Prefix.Index.{CacheLocation, locations_at}
use prism_serve.Routing.Topology.{transfer_cost_ms}
use prism_serve.Routing.Fingerprint.{
  BlockHash, chain_from, chain_hashes_of, compute_chain_hashes, PromptFingerprint, with_hashes,
  create, keep_last, max_reusable_blocks,
}
use prism_serve.Routing.Chains.{
  max_reusable_blocks-last, compute_chain_hashes_extends, compute_chain_hashes_ends,
}
use prism_serve.Routing.Router.{
  AffinityRouter, Question, iter_matches, iter_decisions, block_key, fresh_locations, matches_from,
  forced, decision_of, decide_target, decide_location, decide_match, first_decided,
}
use prism_serve.Routing.Suffix.{iter_decisions_leave_a_token}

abbrev hash : BlockHash
hash none ts = length ts
hash (some p) ts = p * 10 + length ts

abbrev prompt : List ℕ
prompt = 5 ∷ 6 ∷ 7 ∷ 8 ∷ []

abbrev print : PromptFingerprint
print = record {
  namespace = "n";
  kv_compatibility_id = "kv";
  request_context_digest = "c";
  token_ids = prompt;
  chain_hashes = 2 ∷ 22 ∷ [];
  block_size = 2;
}

created : create hash "n" "kv" "c" prompt 2 ≡ ok print
unfolding create with_hashes compute_chain_hashes chain_hashes_of chain_from
created = refl

max_reusable_blocks-last_example :
    let k = max_reusable_blocks print in (k * 2 < 4) × (4 ≤ suc k * 2) × (k ≤ 2)
max_reusable_blocks-last_example =
    max_reusable_blocks-last hash "n" "kv" "c" prompt 2 print created (omega arith)

hashed : compute_chain_hashes hash prompt 2 ≡ ok (2 ∷ 22 ∷ [])
unfolding compute_chain_hashes chain_hashes_of chain_from
hashed = refl

compute_chain_hashes_extends_example :
    (rest : List ℕ) × (compute_chain_hashes hash (prompt ++ 9 ∷ 1 ∷ 2 ∷ []) 2
      ≡ ok ((2 ∷ 22 ∷ []) ++ rest))
compute_chain_hashes_extends_example =
    compute_chain_hashes_extends hash prompt (9 ∷ 1 ∷ 2 ∷ []) 2 (2 ∷ 22 ∷ []) hashed

abbrev block : CacheLocation
block = record {
  instance_id = "p0";
  instance_epoch = "e";
  namespace = "n";
  kv_compatibility_id = "kv";
  request_context_digest = "c";
  chain_hash = 2;
  block_index = 0;
  block_id = 3;
  prefix_tokens = 2;
  last_updated = 1;
}

abbrev router : AffinityRouter
router = record {
  index = record {
    max_age = 10;
    index = (("n", ("kv", ("c", 2))), block ∷ []) ∷ [];
    forward = (("p0", "e"), ("n", ("kv", ("c", 2))) ∷ []) ∷ [];
    last_seq = [];
  };
  topology = [];
  block_bytes = 64;
  safety_margin_ms = 1;
}

abbrev question : Question
question = record {
  decode_candidates = "p0" ∷ [];
  source_epoch_is_current = λ i e. e == "e";
  full_prefill_ms = 100;
  suffix_prefill_ms_per_token = 10;
  required_source = none;
  required_target = none;
  required_cached_prefix_blocks = none;
  link_time = λ l n. n;
  now = 2;
}

iter_decisions_leave_a_token_example :
    All (λ d. d.cached_prefix_tokens < 4) (iter_decisions router print question)
iter_decisions_leave_a_token_example =
    iter_decisions_leave_a_token router question hash "n" "kv" "c" prompt 2 print created
      (omega arith)

decided_once : length (iter_decisions router print question) ≡ 1
unfolding iter_decisions sorted insort first_decided decide_match decide_location decide_target
    decision_of iter_matches matches_from fresh_locations locations_at lookup block_key
    max_reusable_blocks keep_last forced transfer_cost_ms
decided_once = refl

compute_chain_hashes_ends_example :
    (hashes : List ℕ) × (compute_chain_hashes hash prompt 2 ≡ ok hashes)
    × (length hashes ≡ length prompt / 2)
compute_chain_hashes_ends_example = compute_chain_hashes_ends hash prompt 2 (omega arith)

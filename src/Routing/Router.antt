-- ===== src/Routing/Router.antt =====
-- The matches of a prompt and the decisions on them: prism_serve/router/prefix_index.py,
-- prism_serve/router/router.py.
use prism_serve.Base.{
  ℕ, suc, ◌+◌, ◌-◌, ◌*◌, String, Bool, true, false, not, ◌&&◌, ◌||◌, Option, none, some, List, [],
  ◌∷◌, ◌++◌, ltb, leb, if◌then◌else◌, is_some, Key, ◌==◌, nat_key, text_key, pair_key, triple_key,
  length, take, filter,
}
use prism_serve.Base.Order.{sorted}
use prism_serve.Base.Int.{ℤ, pos, negsuc}
use prism_serve.Prefix.Index.{IndexKey, CacheLocation, PrefixIndex, locations_at}
use prism_serve.Routing.Fingerprint.{PromptFingerprint, max_reusable_blocks}
use prism_serve.Routing.Topology.{LinkTime, TopologyMatrix, transfer_cost_ms}

abbrev pub Match : Type 0
Match = ℕ × List CacheLocation

unfoldable pub block_key : PromptFingerprint → ℕ → IndexKey
block_key f chain_hash =
    (f.namespace, (f.kv_compatibility_id, (f.request_context_digest, chain_hash)))

-- The locations of a block that are not too old.
unfoldable pub fresh_locations : PrefixIndex → ℕ → IndexKey → List CacheLocation
fresh_locations index now key =
    filter (λ l. leb (now - l.last_updated) index.max_age) (locations_at key index)

abbrev pub if_any : ℕ → List CacheLocation → List Match
if_any blocks [] = []
if_any blocks (l ∷ ls) = (blocks, l ∷ ls) ∷ []

-- The matches for the hashes from block `blocks` on, the last block first.
unfoldable pub matches_from : PrefixIndex → PromptFingerprint → ℕ → ℕ → List ℕ → List Match
matches_from index f now blocks [] = []
matches_from index f now blocks (x ∷ xs) =
    matches_from index f now (suc blocks) xs
    ++ if_any blocks (fresh_locations index now (block_key f x))

-- `PrefixIndex.iter_matches`
unfoldable pub iter_matches : PrefixIndex → PromptFingerprint → ℕ → List Match
iter_matches index f now = matches_from index f now 1 (take (max_reusable_blocks f) f.chain_hashes)

-- `estimated_gain_ms`, where a transfer of infinite cost gains minus infinity.
pub data Gain : Type 0 where
  minus_infinity : Gain
  finite : ℤ → Gain

abbrev pub minus : ℕ → ℕ → ℤ
minus a b = if leb b a then pos (a - b) else negsuc (b - a - 1)

abbrev pub less : ℤ → ℤ → Bool
less (pos a) (pos b) = ltb a b
less (pos a) (negsuc b) = false
less (negsuc a) (pos b) = true
less (negsuc a) (negsuc b) = ltb b a

-- `a < b`
abbrev pub gains_less : Gain → Gain → Bool
gains_less minus_infinity minus_infinity = false
gains_less minus_infinity (finite b) = true
gains_less (finite a) minus_infinity = false
gains_less (finite a) (finite b) = less a b

pub record CachedPrefixDecision : Type 0 where
  pub source_instance : String
  pub source_epoch : String
  pub decode_instance : String
  pub cached_prefix_blocks : ℕ
  pub cached_prefix_tokens : ℕ
  pub transfer_bytes : ℕ
  pub estimated_gain_ms : Gain

pub record AffinityRouter : Type 0 where
  pub index : PrefixIndex
  pub topology : TopologyMatrix
  pub block_bytes : ℕ
  pub safety_margin_ms : ℕ

-- The arguments of `iter_decisions` beside the fingerprint, and the clock.
pub record Question : Type 0 where
  pub decode_candidates : List String
  pub source_epoch_is_current : String → String → Bool
  pub full_prefill_ms : ℕ
  pub suffix_prefill_ms_per_token : ℕ
  pub required_source : Option String
  pub required_target : Option String
  pub required_cached_prefix_blocks : Option ℕ
  pub link_time : LinkTime
  pub now : ℕ

-- `required is not None and value != required`
abbrev pub differs {ℓ} : {A : Type ℓ} ⦃key : Key A⦄ → Option A → A → Bool
differs none value = false
differs (some required) value = not (value == required)

unfoldable pub forced : Question → Bool
forced q =
    is_some q.required_source
    || is_some q.required_target
    || is_some q.required_cached_prefix_blocks

abbrev pub gain_of : ℕ → Option ℕ → ℕ → Gain
gain_of full none suffix_ms = minus_infinity
gain_of full (some transfer_ms) suffix_ms = finite (minus full (transfer_ms + suffix_ms))

unfoldable pub decision_of :
    AffinityRouter
    → PromptFingerprint
    → Question
    → ℕ
    → CacheLocation
    → String
    → CachedPrefixDecision
decision_of r f q blocks l target =
    let bytes = if target == l.instance_id then 0 else blocks * r.block_bytes in
    let prefix = blocks * f.block_size in
    record {
      source_instance = l.instance_id;
      source_epoch = l.instance_epoch;
      decode_instance = target;
      cached_prefix_blocks = blocks;
      cached_prefix_tokens = prefix;
      transfer_bytes = bytes;
      estimated_gain_ms =
          gain_of q.full_prefill_ms
            (transfer_cost_ms q.link_time r.topology l.instance_id target bytes)
            ((length f.token_ids - prefix) * q.suffix_prefill_ms_per_token);
    }

-- The body of the loop over the targets.
unfoldable pub decide_target :
    AffinityRouter
    → PromptFingerprint
    → Question
    → ℕ
    → CacheLocation
    → String
    → List CachedPrefixDecision
decide_target r f q blocks l target =
    let d = decision_of r f q blocks l target in
    if differs q.required_target target
      || (not (forced q) && not (gains_less (finite (pos r.safety_margin_ms)) d.estimated_gain_ms))
    then []
    else d ∷ []

abbrev pub concat_map {ℓ κ} : {A : Type ℓ} {B : Type κ} → (A → List B) → List A → List B
concat_map f [] = []
concat_map f (x ∷ xs) = f x ++ concat_map f xs

-- The body of the loop over the locations.
unfoldable pub decide_location :
    AffinityRouter → PromptFingerprint → Question → ℕ → CacheLocation → List CachedPrefixDecision
decide_location r f q blocks l =
    if differs q.required_source l.instance_id
      || not (q.source_epoch_is_current l.instance_id l.instance_epoch)
    then []
    else concat_map (decide_target r f q blocks l) q.decode_candidates

-- The body of the loop over the matches.
unfoldable pub decide_match :
    AffinityRouter → PromptFingerprint → Question → Match → List CachedPrefixDecision
decide_match r f q m =
    if differs q.required_cached_prefix_blocks m.0
    then []
    else concat_map (decide_location r f q m.0) m.1

abbrev pub or_else {ℓ} : {A : Type ℓ} → List A → List A → List A
or_else [] rest = rest
or_else (d ∷ ds) rest = d ∷ ds

-- The loop over the matches, with `if decisions: break`.
unfoldable pub first_decided :
    AffinityRouter → PromptFingerprint → Question → List Match → List CachedPrefixDecision
first_decided r f q [] = []
first_decided r f q (m ∷ ms) = or_else (decide_match r f q m) (first_decided r f q ms)

-- The order of the keys `(-cached_prefix_blocks, -estimated_gain_ms)`.
unfoldable pub precedes : CachedPrefixDecision → CachedPrefixDecision → Bool
precedes a b =
    if a.cached_prefix_blocks == b.cached_prefix_blocks
    then gains_less b.estimated_gain_ms a.estimated_gain_ms
    else ltb b.cached_prefix_blocks a.cached_prefix_blocks

unfoldable pub iter_decisions :
    AffinityRouter → PromptFingerprint → Question → List CachedPrefixDecision
iter_decisions r f q = sorted precedes (first_decided r f q (iter_matches r.index f q.now))

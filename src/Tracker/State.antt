-- ===== src/Tracker/State.antt =====
-- The phases of a request and what is kept for it: prism_serve/scheduler/sequence_state.py.
-- Payload that the tracker only carries (tokens, sampling parameters, endpoint refs) is left out.
use prism_serve.Base.{
  ℕ, ◌-◌, ◌*◌, String, Bool, List, leb, if◌then◌else◌, ◌==◌, nat_key, text_key, pair_key,
}
use prism_serve.Base.Dict.{Dict}
use prism_serve.Base.Int.{ℤ, pos, negsuc}

pub data SeqState : Type 0 where
  waiting prefilling kv_pending recomputing affinity_loading prefix_prefilling decoding : SeqState
  finished aborted : SeqState

unfoldable pub ordinal : SeqState → ℕ
ordinal waiting = 1
ordinal prefilling = 2
ordinal kv_pending = 3
ordinal recomputing = 4
ordinal affinity_loading = 5
ordinal prefix_prefilling = 6
ordinal decoding = 7
ordinal finished = 8
ordinal aborted = 9

-- `==` of two phases
abbrev pub same_state : SeqState → SeqState → Bool
same_state s t = ordinal s == ordinal t

pub data PublishOutcome : Type 0 where
  not_started acked unknown : PublishOutcome

pub record RequestInfo : Type 0 where
  pub req_id : String
  pub state : SeqState
  pub prefill_instance : String
  pub decode_instance : String
  pub prefill_instance_epoch : String
  pub decode_instance_epoch : String
  pub arrived_at : ℕ
  pub prefill_start : ℕ
  pub kv_sent_at : ℕ
  pub recompute_start : ℕ
  pub decode_start : ℕ
  pub first_token_at : ℕ
  pub finished_at : ℕ
  pub dispatch_attempts : ℕ
  pub kv_size_bytes : ℕ
  pub transfer_operation_id : String
  pub active_operation_id : String
  pub decode_slot_lease_id : String
  pub cache_source : String
  pub cached_prefix_tokens : ℕ
  pub affinity_started_at : ℕ
  pub prefix_ready_at : ℕ
  pub suffix_prefill_started_at : ℕ
  pub publish_outcome : PublishOutcome

-- `RequestInfo(req_id)`, which reads the clock
abbrev pub new_request : String → ℕ → RequestInfo
new_request req_id now = record {
  req_id = req_id;
  state = waiting;
  prefill_instance = "";
  decode_instance = "";
  prefill_instance_epoch = "";
  decode_instance_epoch = "";
  arrived_at = now;
  prefill_start = 0;
  kv_sent_at = 0;
  recompute_start = 0;
  decode_start = 0;
  first_token_at = 0;
  finished_at = 0;
  dispatch_attempts = 0;
  kv_size_bytes = 0;
  transfer_operation_id = "";
  active_operation_id = "";
  decode_slot_lease_id = "";
  cache_source = "";
  cached_prefix_tokens = 0;
  affinity_started_at = 0;
  prefix_ready_at = 0;
  suffix_prefill_started_at = 0;
  publish_outcome = not_started;
}

-- -1 before the first token
unfoldable pub ttft_ms : RequestInfo → ℤ
ttft_ms r =
    if r.first_token_at == 0
    then negsuc 0
    else if leb r.arrived_at r.first_token_at
    then pos ((r.first_token_at - r.arrived_at) * 1000)
    else negsuc ((r.arrived_at - r.first_token_at) * 1000 - 1)

-- `ttfts` is what `request_ttft_ms` has observed, `stage_latencies` what
-- `gateway_first_token_stage_latency_ms` has, each under its path, and `cleanup_tasks` names asyncio
-- tasks by number.
pub record Tracker : Type 0 where
  pub requests : Dict String RequestInfo
  pub cleanup_tasks : Dict String ℕ
  pub ttfts : List ℤ
  pub stage_latencies : List (String × ℤ)

-- ===== src/Governor/State.antt =====
-- The state of TransferGovernor and its work items: prism_serve/scheduler/transfer_governor.py and
-- prism_serve/scheduler/sequence_state.py. A task's `ident` is the identity of the Python object;
-- its payload for the infer client is left out.
use Prim.Native.String.{◌++◌ as text_append}
use prism_serve.Base.{ℕ, String, Bool, List, [], get_or, nat_key, text_key, pair_key}
use prism_serve.Base.Dict.{Dict, lookup}
use prism_serve.Sample.{KvUsageSample}

pub record TransferTask : Type 0 where
  pub ident : ℕ
  pub req_id : String
  pub src : String
  pub dst : String
  pub kv_size : ℕ
  pub operation_id : String
  pub priority : ℕ

-- `unit` is the ratio 1.0, `max_bytes` is MAX_BYTES_INFLIGHT_PER_PAIR.
pub record Config : Type 0 where
  pub unit : ℕ
  pub high_watermark : ℕ
  pub low_watermark : ℕ
  pub max_bytes : ℕ
  pub stale_after : ℕ
  pub max_recompute : ℕ

-- What a call meets outside the governor: the clock, the worker registry (always true where there
-- is none), and whether the infer client takes a task or raises.
pub record Env : Type 0 where
  pub now : ℕ
  pub can_govern : String → Bool
  pub takes : TransferTask → Bool

pub record Governor : Type 0 where
  pub config : Config
  pub open config use *
  pub kv_usage : Dict String KvUsageSample
  pub expected_epochs : Dict String String
  pub pair_bytes_inflight : Dict String ℕ
  pub bytes_inflight : Dict String ℕ
  pub deferred : Dict String (List TransferTask)
  pub inflight_tasks : Dict String TransferTask
  pub recompute_counts : Dict String ℕ
  pub sent : List TransferTask
  pub completed : List TransferTask

-- `__init__`, with the settings read from the configuration.
unfoldable pub init : Config → Governor
init c = record {
  config = c;
  kv_usage = [];
  expected_epochs = [];
  pair_bytes_inflight = [];
  bytes_inflight = [];
  deferred = [];
  inflight_tasks = [];
  recompute_counts = [];
  sent = [];
  completed = [];
}

unfoldable pub pair_id : String → String → String
pair_id src dst = text_append src (text_append "--" dst)

-- `self._pair_bytes_inflight[pair]`
abbrev pub pair_bytes : Governor → String → ℕ
pair_bytes g pair = get_or (lookup pair g.pair_bytes_inflight) 0

-- `self._bytes_inflight[dst]`, which is also the method `bytes_inflight`
abbrev pub dst_bytes : Governor → String → ℕ
dst_bytes g dst = get_or (lookup dst g.bytes_inflight) 0

-- `self._deferred[dst]`
abbrev pub queue : Governor → String → List TransferTask
queue g dst = get_or (lookup dst g.deferred) []

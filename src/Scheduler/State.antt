-- ===== src/Scheduler/State.antt =====
-- The state of PDScheduler: prism_serve/scheduler/scheduler.py.
use prism_serve.Base.{ℕ, String, Bool, Option, List, [], nat_key, text_key, pair_key}
use prism_serve.Base.Dict.{Dict}
use prism_serve.Sample.{KvUsageSample}

-- An operation or command that may still be under way, as the four texts that name it.
abbrev pub Uncertain : Type 0
Uncertain = String × String × String × String

pub record QuarantineRecord : Type 0 where
  pub instance_id : String
  pub instance_epoch : String
  pub role : String
  pub reconciliation_token : String
  pub quarantined_at : ℕ
  pub uncertain_transfer_operations : List Uncertain
  pub uncertain_dispatch_commands : List Uncertain

pub data LeaseState : Type 0 where
  reserved active quarantined released : LeaseState

pub record DecodeSlotLease : Type 0 where
  pub lease_id : String
  pub operation_id : String
  pub req_id : String
  pub instance_id : String
  pub state : LeaseState
  pub reserved_at : ℕ
  pub release_cleanup_id : Option String

-- The settings read from the configuration. `unit` is the ratio 1.0.
pub record Config : Type 0 where
  pub unit : ℕ
  pub high_watermark : ℕ
  pub kv_usage_stale_after : ℕ
  pub kv_per_instance_bytes : ℕ
  pub min_decode_instances : ℕ
  pub max_decode_instances : ℕ

-- What a call meets outside the scheduler: the clock, the next random token, and the worker registry
-- (always true where there is none).
pub record Env : Type 0 where
  pub now : ℕ
  pub token : String
  pub can_route : String → Bool
  pub world_fresh : Bool

pub record PdScheduler : Type 0 where
  pub config : Config
  pub open config use *
  pub prefill_load : Dict String ℕ
  pub decode_free_slots : Dict String ℕ
  pub decode_max_slots : Dict String ℕ
  pub slot_leases : Dict String DecodeSlotLease
  pub kv_usage : Dict String KvUsageSample
  pub instance_epochs : Dict String String
  pub instance_roles : Dict String String
  pub quarantine_records : Dict String QuarantineRecord

-- `__init__`
abbrev pub init : Config → PdScheduler
init c = record {
  config = c;
  prefill_load = [];
  decode_free_slots = [];
  decode_max_slots = [];
  slot_leases = [];
  kv_usage = [];
  instance_epochs = [];
  instance_roles = [];
  quarantine_records = [];
}

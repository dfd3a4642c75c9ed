-- ===== src/Scheduler/Instances.antt =====
-- Instances come and go: register, deregister, quarantine, reconcile,
-- prism_serve/scheduler/scheduler.py.
use Prim.Native.String.{◌++◌ as text_append}
use prism_serve.Base.{
  ℕ, String, Bool, true, false, not, ◌&&◌, ◌||◌, Option, none, some, List, [], ◌∷◌, ◌++◌,
  if◌then◌else◌, get_or, ◌==◌, nat_key, text_key, pair_key, any, Error, value_error,
  assertion_error, ok, err, Action,
}
use prism_serve.Base.Dict.{lookup, contains, insert, erase}
use prism_serve.Scheduler.State.{Uncertain, QuarantineRecord, Env, PdScheduler}

-- `if xs:`
abbrev pub is_nonempty : List String → Bool
is_nonempty [] = false
is_nonempty (x ∷ xs) = true

-- An instance with all its capacity, under an epoch.
unfoldable pub open_capacity : String → String → ℕ → String → PdScheduler → PdScheduler
open_capacity instance_id role max_slots epoch s =
    if role == "prefill"
    then record s {
      prefill_load = insert instance_id 0 s.prefill_load;
      instance_epochs = insert instance_id epoch s.instance_epochs;
      instance_roles = insert instance_id role s.instance_roles;
    }
    else record s {
      decode_free_slots = insert instance_id max_slots s.decode_free_slots;
      decode_max_slots = insert instance_id max_slots s.decode_max_slots;
      instance_epochs = insert instance_id epoch s.instance_epochs;
      instance_roles = insert instance_id role s.instance_roles;
    }

-- The checks on the role of an instance that registers.
unfoldable pub register_role : String → String → ℕ → String → Action PdScheduler (Unit {0})
register_role instance_id role max_slots epoch s =
    if role == "prefill"
    then (ok tt, open_capacity instance_id role max_slots epoch s)
    else if not (role == "decode")
    then (err (value_error "unknown role"), s)
    else if max_slots == 0
    then (err (assertion_error "decode instance must specify max_slots > 0"), s)
    else (ok tt, open_capacity instance_id role max_slots epoch s)

-- `instance_epoch or f"legacy:{instance_id}"`
unfoldable pub or_legacy : String → String → String
or_legacy instance_epoch instance_id =
    if instance_epoch == "" then text_append "legacy:" instance_id else instance_epoch

unfoldable pub register_instance :
    String → String → ℕ → String → List String → Action PdScheduler (Unit {0})
register_instance instance_id role max_slots instance_epoch active_request_ids s =
    if contains instance_id s.quarantine_records
    then (err (value_error "instance is quarantined"), s)
    else if is_nonempty active_request_ids
    then (err (value_error "instance still owns active requests"), s)
    else elim (lookup instance_id s.instance_epochs) [
      | none ↦ register_role instance_id role max_slots (or_legacy instance_epoch instance_id) s
      | some existing_epoch ↦
          if existing_epoch == or_legacy instance_epoch instance_id
          then (ok tt, s)
          else (err (value_error "instance epoch changed without reconciliation"), s)
    ]

unfoldable pub deregister_instance : String → PdScheduler → PdScheduler
deregister_instance instance_id s = record s {
  prefill_load = erase instance_id s.prefill_load;
  decode_free_slots = erase instance_id s.decode_free_slots;
  decode_max_slots = erase instance_id s.decode_max_slots;
  kv_usage = erase instance_id s.kv_usage;
  instance_epochs = erase instance_id s.instance_epochs;
  instance_roles = erase instance_id s.instance_roles;
}

-- `==` of two tuples
unfoldable pub same_uncertain : Uncertain → Uncertain → Bool
same_uncertain (a, b, c, d) (a', b', c', d') = a == a' && b == b' && c == c' && d == d'

-- `x is None or x in xs`
unfoldable pub known : Option Uncertain → List Uncertain → Bool
known none xs = true
known (some x) xs = any (same_uncertain x) xs

-- `(*xs, *((x,) if not known else ()))`
unfoldable pub with_uncertain : Option Uncertain → List Uncertain → List Uncertain
with_uncertain none xs = xs
with_uncertain (some x) xs = if known (some x) xs then xs else xs ++ x ∷ []

unfoldable pub new_record :
    Env → String → Option Uncertain → Option Uncertain → PdScheduler → QuarantineRecord
new_record env instance_id uncertain_transfer uncertain_dispatch s = record {
  instance_id = instance_id;
  instance_epoch = get_or (lookup instance_id s.instance_epochs) "unknown";
  role = get_or (lookup instance_id s.instance_roles) "unknown";
  reconciliation_token = env.token;
  quarantined_at = env.now;
  uncertain_transfer_operations = with_uncertain uncertain_transfer [];
  uncertain_dispatch_commands = with_uncertain uncertain_dispatch [];
}

-- The record of an instance that is quarantined again; it is the old one where nothing is new.
unfoldable pub merged : Option Uncertain → Option Uncertain → QuarantineRecord → QuarantineRecord
merged uncertain_transfer uncertain_dispatch existing = record existing {
  uncertain_transfer_operations =
      with_uncertain uncertain_transfer existing.uncertain_transfer_operations;
  uncertain_dispatch_commands =
      with_uncertain uncertain_dispatch existing.uncertain_dispatch_commands;
}

unfoldable pub put_record : String → QuarantineRecord → PdScheduler → PdScheduler
put_record instance_id r s = record s {
  quarantine_records = insert instance_id r s.quarantine_records;
}

unfoldable pub quarantine_instance :
    Env
    → String
    → Option Uncertain
    → Option Uncertain
    → PdScheduler
    → QuarantineRecord × PdScheduler
quarantine_instance env instance_id uncertain_transfer uncertain_dispatch s =
    elim (lookup instance_id s.quarantine_records) [
      | some existing ↦
          if known uncertain_transfer existing.uncertain_transfer_operations
            && known uncertain_dispatch existing.uncertain_dispatch_commands
          then (existing, s)
          else (
            merged uncertain_transfer uncertain_dispatch existing,
            put_record instance_id (merged uncertain_transfer uncertain_dispatch existing) s,
          )
      | none ↦ (
        new_record env instance_id uncertain_transfer uncertain_dispatch s,
        record s {
          prefill_load = erase instance_id s.prefill_load;
          decode_free_slots = erase instance_id s.decode_free_slots;
          decode_max_slots = erase instance_id s.decode_max_slots;
          kv_usage = erase instance_id s.kv_usage;
          quarantine_records =
              insert instance_id
                (new_record env instance_id uncertain_transfer uncertain_dispatch s)
                s.quarantine_records;
        },
      )
    ]

-- What an instance reports when it reconciles.
pub record Report : Type 0 where
  pub instance_epoch : String
  pub reconciliation_token : String
  pub role : String
  pub max_slots : ℕ
  pub active_request_ids : List String
  pub active_transfer_operation_ids : List String
  pub pending_dispatch_command_ids : List String

-- The checks of `reconcile_instance`, in their order: the first that fails.
unfoldable pub report_error : Report → QuarantineRecord → Option Error
report_error p r =
    if not (p.reconciliation_token == r.reconciliation_token)
    then some (value_error "reconciliation token mismatch")
    else if is_nonempty p.active_request_ids
    then some (value_error "instance still has active requests")
    else if is_nonempty p.active_transfer_operation_ids
    then some (value_error "instance still has active transfers")
    else if is_nonempty p.pending_dispatch_command_ids
    then some (value_error "instance still has pending dispatches")
    else if p.instance_epoch == ""
    then some (value_error "instance_epoch must not be empty")
    else if not (p.role == "prefill" || p.role == "decode")
    then some (value_error "unknown role")
    else if not (r.role == "unknown") && not (p.role == r.role)
    then some (value_error "reconciliation role changed")
    else if p.role == "decode" && p.max_slots == 0
    then some (value_error "decode instance must specify max_slots > 0")
    else none

unfoldable pub lift_fence : String → PdScheduler → PdScheduler
lift_fence instance_id s = record s { quarantine_records = erase instance_id s.quarantine_records }

unfoldable pub reconcile_instance : String → Report → Action PdScheduler (Unit {0})
reconcile_instance instance_id p s = elim (lookup instance_id s.quarantine_records) [
  | none ↦ (err (value_error "instance is not quarantined"), s)
  | some r ↦ elim (report_error p r) [
    | some e ↦ (err e, s)
    | none ↦ (
      ok tt,
      lift_fence instance_id (open_capacity instance_id p.role p.max_slots p.instance_epoch s),
    )
  ]
]

abbrev pub quarantine_record : String → PdScheduler → Option QuarantineRecord
quarantine_record instance_id s = lookup instance_id s.quarantine_records

unfoldable pub epoch_matches : PdScheduler → String → String → Bool
epoch_matches s instance_id assigned_epoch =
    not (assigned_epoch == "") && elim (lookup instance_id s.instance_epochs) [
      | none ↦ false
      | some epoch ↦ epoch == assigned_epoch
    ]

abbrev pub instance_epoch_of : String → PdScheduler → String
instance_epoch_of instance_id s = get_or (lookup instance_id s.instance_epochs) "unknown"

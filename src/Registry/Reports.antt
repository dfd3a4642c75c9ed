-- ===== src/Registry/Reports.antt =====
-- Resource reports and their freshness: prism_serve/router/worker_registry.py.
use prism_serve.Base.{
  ℕ, ◌+◌, ◌-◌, String, Bool, true, false, not, ◌&&◌, ◌||◌, Option, none, some, List, [], ◌∷◌, ltb,
  leb, if◌then◌else◌, is_some, get_or, ◌==◌, nat_key, text_key, pair_key, any, all,
}
use prism_serve.Base.Dict.{Dict, keys, values, lookup, contains, insert}
use prism_serve.Registry.World.{
  expected_members, TopologyState, starting, ready, failed, stopped, ResourceSignalState, unknown,
  fresh, stale, WorkerIdentity, instance_epoch, Expectation, WorkerRegistry,
}

-- What a report holds of blocks: a count that is no natural number is none.
pub record Blocks : Type 0 where
  pub num_gpu_blocks : Option ℕ
  pub free_blocks : Option ℕ
  pub block_buckets : Option (Dict String (Option ℕ))
  pub block_conservation_valid : Bool

-- Which of the four block fields a report has: none, all, or only some of them.
pub data BlockFields : Type 0 where
  no_fields some_fields : BlockFields
  all_fields : Blocks → BlockFields

-- A report as it was parsed; what is of the wrong type is none or false.
pub record Report : Type 0 where
  pub report_epoch : String
  pub complete : Bool
  pub has_resources : Bool
  pub model_profile : Option (Dict String String)
  pub blocks : BlockFields

unfoldable pub matches : Dict String String → String × String → Bool
matches profile (key, value) = elim (lookup key profile) [ none ↦ false | some x ↦ x == value ]

unfoldable pub profile_valid : Option (Dict String String) → Report → WorkerIdentity → Bool
profile_valid none p w = true
profile_valid (some expected) p w = elim p.model_profile [
  | none ↦ false
  | some profile ↦
      all (matches profile) expected
      && matches profile ("kv_compatibility_id", w.kv_compatibility_id)
]

-- `sum(values)`, none where a value is no natural number
unfoldable pub total : List (Option ℕ) → Option ℕ
total [] = some 0
total (none ∷ xs) = none
total (some n ∷ xs) = elim (total xs) [ none ↦ none | some m ↦ some (n + m) ]

unfoldable pub is_count : Option ℕ → ℕ → Bool
is_count none n = false
is_count (some m) n = m == n

abbrev pub expected_buckets : List String
expected_buckets = "free" ∷ "pending" ∷ "sequence" ∷ "evictable" ∷ "quarantined" ∷ []

unfoldable pub buckets_valid : Dict String (Option ℕ) → ℕ → ℕ → Bool
buckets_valid buckets num_gpu_blocks free_blocks =
    all (λ k. any (λ j. k == j) expected_buckets) (keys buckets)
    && all (λ k. contains k buckets) expected_buckets
    && is_count (get_or (lookup "free" buckets) none) free_blocks
    && is_count (total (values buckets)) num_gpu_blocks

unfoldable pub blocks_valid : Blocks → Bool
blocks_valid b = elim b.num_gpu_blocks [
  | none ↦ false
  | some n ↦ elim b.free_blocks [
    | none ↦ false
    | some f ↦ elim b.block_buckets [
      | none ↦ false
      | some buckets ↦ b.block_conservation_valid && buckets_valid buckets n f
    ]
  ]
]

unfoldable pub fields_valid : Option (Dict String String) → BlockFields → Bool
fields_valid expected no_fields = not (is_some expected)
fields_valid expected some_fields = false
fields_valid expected (all_fields b) = blocks_valid b

-- `_resource_report_schema_valid`
unfoldable pub schema_valid : Expectation → Report → WorkerIdentity → Bool
schema_valid e p w = profile_valid e.model_profile p w && fields_valid e.model_profile p.blocks

unfoldable pub report_valid : Expectation → Report → WorkerIdentity → Bool
report_valid e p w =
    p.report_epoch == instance_epoch w && p.complete && p.has_resources && schema_valid e p w

unfoldable pub freshness : ℕ → ℕ → ResourceSignalState
freshness stale_after age = if leb age stale_after then fresh else stale

unfoldable pub put_signal : ℕ → String → WorkerIdentity → ℕ → WorkerRegistry → WorkerRegistry
put_signal now instance_id w received_at r = record r {
  resources =
      insert instance_id
        (record {
          state = freshness r.expected.stale_after (now - received_at);
          epoch = instance_epoch w;
          received_at = received_at;
          age = now - received_at;
        })
        r.resources;
}

unfoldable pub update_resource_report :
    ℕ → String → Report → Option ℕ → WorkerRegistry → Bool × WorkerRegistry
update_resource_report now instance_id p received_at r = elim (lookup instance_id r.members) [
  | none ↦ (false, r)
  | some w ↦
      if not (report_valid r.expected p w) || ltb now (get_or received_at now)
      then (false, r)
      else (true, put_signal now instance_id w (get_or received_at now) r)
]

-- The state of `resource_signal`, which reads the clock anew
unfoldable pub signal_state : ℕ → String → WorkerRegistry → ResourceSignalState
signal_state now instance_id r = elim (lookup instance_id r.resources) [
  | none ↦ unknown
  | some signal ↦ freshness r.expected.stale_after (now - signal.received_at)
]

unfoldable pub is_ready : TopologyState → Bool
is_ready ready = true
is_ready starting = false
is_ready failed = false
is_ready stopped = false

unfoldable pub is_fresh : ResourceSignalState → Bool
is_fresh fresh = true
is_fresh stale = false
is_fresh unknown = false

-- `can_admit`, which is also `can_send`, `can_route`, `can_govern` and `can_reconcile_finalize`
unfoldable pub can_admit : ℕ → String → WorkerRegistry → Bool
can_admit now instance_id r = is_ready r.state && is_fresh (signal_state now instance_id r)

unfoldable pub world_fresh : ℕ → WorkerRegistry → Bool
world_fresh now r =
    is_ready r.state
    && all (λ k. contains k r.members) (keys expected_members)
    && all (λ k. contains k expected_members) (keys r.members)
    && all (λ k. can_admit now k r) (keys expected_members)

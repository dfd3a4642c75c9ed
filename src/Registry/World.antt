-- ===== src/Registry/World.antt =====
-- Identities, capabilities and the atomic install of a world: prism_serve/router/worker_registry.py.
use Prim.Native.String.{◌++◌ as text_append}
use prism_serve.Base.{
  ℕ, ◌+◌, String, Bool, true, false, not, ◌&&◌, ◌||◌, Option, none, some, List, [], ◌∷◌, map,
  if◌then◌else◌, ◌==◌, nat_key, text_key, pair_key, any, all,
}
use prism_serve.Base.Dict.{Dict, keys, values, lookup, contains, insert}

-- `EXPECTED_MEMBERS`
abbrev pub expected_members : Dict String (String × ℕ)
expected_members =
    ("p0", ("prefill", 0))
    ∷ ("p1", ("prefill", 1))
    ∷ ("d0", ("decode", 2))
    ∷ ("d1", ("decode", 3))
    ∷ []

-- `EXPECTED_PAIRS`, with what `split("--")` makes of each.
abbrev pub expected_pairs : Dict String (String × String)
expected_pairs =
    ("p0--d0", ("p0", "d0"))
    ∷ ("p0--d1", ("p0", "d1"))
    ∷ ("p1--d0", ("p1", "d0"))
    ∷ ("p1--d1", ("p1", "d1"))
    ∷ ("d0--d1", ("d0", "d1"))
    ∷ []

pub data TopologyState : Type 0 where
  starting ready failed stopped : TopologyState

pub data ResourceSignalState : Type 0 where
  unknown fresh stale : ResourceSignalState

pub record WorkerIdentity : Type 0 where
  pub instance_id : String
  pub role : String
  pub topology_generation : String
  pub pod_uid : String
  pub process_generation : String
  pub rpc_endpoint : String
  pub global_rank : ℕ
  pub topology_digest : String
  pub kv_compatibility_id : String

abbrev pub instance_epoch : WorkerIdentity → String
instance_epoch w = text_append w.pod_uid (text_append ":" w.process_generation)

pub record PairCapability : Type 0 where
  pub pair_id : String
  pub source_epoch : String
  pub target_epoch : String
  pub transport : String
  pub probe_generation : String
  pub probe_passed : Bool
  pub evidence_path : String

-- A signal that has been received; the report itself is only carried, and left out.
pub record ResourceSignal : Type 0 where
  pub state : ResourceSignalState
  pub epoch : String
  pub received_at : ℕ
  pub age : ℕ

pub record Expectation : Type 0 where
  pub topology_generation : String
  pub kv_compatibility_id : Option String
  pub model_profile : Option (Dict String String)
  pub require_gpudirect_rdma : Bool
  pub stale_after : ℕ

pub record WorkerRegistry : Type 0 where
  pub expected : Expectation
  pub state : TopologyState
  pub members : Dict String WorkerIdentity
  pub capabilities : Dict String PairCapability
  pub resources : Dict String ResourceSignal

abbrev pub init : Expectation → WorkerRegistry
init e = record { expected = e; state = starting; members = []; capabilities = []; resources = [] }

-- `{key(x): x for x in xs}`
unfoldable pub by_key : {A : Type 0} → (A → String) → List A → Dict String A → Dict String A
by_key key [] d = d
by_key key (x ∷ xs) d = by_key key xs (insert (key x) x d)

-- `set(d) == set(e)`
unfoldable pub same_keys : {A B : Type 0} → Dict String A → Dict String B → Bool
same_keys d e = all (λ k. contains k e) (keys d) && all (λ k. contains k d) (keys e)

-- `len({f(x) for x in xs})`
unfoldable pub count_distinct : List String → ℕ
count_distinct [] = 0
count_distinct (x ∷ xs) = if any (λ y. x == y) xs then count_distinct xs else count_distinct xs + 1

unfoldable pub is_expected_id : Option String → String → Bool
is_expected_id none x = true
is_expected_id (some wanted) x = x == wanted

unfoldable pub role_fits : WorkerIdentity → String → Bool
role_fits w name = elim (lookup name expected_members) [
  | none ↦ false
  | some (role, rank) ↦ w.role == role && w.global_rank == rank
]

unfoldable pub transport_fits : Bool → String → Bool
transport_fits require_gpudirect_rdma transport =
    transport == "NCCL_GDR"
    || (not require_gpudirect_rdma && (transport == "NCCL_SOCKET" || transport == "CUDA_IPC"))

-- `x in members and epoch == members[x].instance_epoch`
unfoldable pub is_at_epoch : Dict String WorkerIdentity → String → String → Bool
is_at_epoch members name epoch = elim (lookup name members) [
  | none ↦ false
  | some w ↦ epoch == instance_epoch w
]

unfoldable pub admit_capability : Expectation → PairCapability → Dict String WorkerIdentity → Bool
admit_capability e c members =
    c.probe_passed && not (c.probe_generation == "") && elim (lookup c.pair_id expected_pairs) [
      | none ↦ false
      | some (source, target) ↦
          is_at_epoch members source c.source_epoch
          && is_at_epoch members target c.target_epoch
          && transport_fits e.require_gpudirect_rdma c.transport
    ]

unfoldable pub members_fit : Expectation → Dict String WorkerIdentity → Bool
members_fit e members =
    all (λ w. w.topology_generation == e.topology_generation) (values members)
    && count_distinct (map (λ w. w.topology_digest) (values members)) == 1
    && count_distinct (map (λ w. w.pod_uid) (values members)) == 4
    && count_distinct (map (λ w. w.kv_compatibility_id) (values members)) == 1
    && all (λ w. not (w.kv_compatibility_id == "")) (values members)
    && all (λ w. is_expected_id e.kv_compatibility_id w.kv_compatibility_id) (values members)
    && all (λ p. role_fits p.1 p.0) members

unfoldable pub is_valid_world :
    Expectation → Dict String WorkerIdentity → Dict String PairCapability → Bool
is_valid_world e members caps =
    same_keys members expected_members
    && same_keys caps expected_pairs
    && members_fit e members
    && all (λ c. admit_capability e c members) (values caps)

-- `_fail`
unfoldable pub fail_world : WorkerRegistry → WorkerRegistry
fail_world r = record r { state = failed; resources = []; capabilities = [] }

unfoldable pub install_world :
    List WorkerIdentity → List PairCapability → WorkerRegistry → Bool × WorkerRegistry
install_world identities capabilities r =
    let members = by_key (λ w. w.instance_id) identities [] in
    let caps = by_key (λ c. c.pair_id) capabilities [] in
    if is_valid_world r.expected members caps
    then (true, record r { members = members; capabilities = caps; resources = []; state = ready })
    else (false, fail_world r)

-- `==` of two identities
unfoldable pub same_identity : WorkerIdentity → WorkerIdentity → Bool
same_identity v w =
    v.instance_id == w.instance_id
    && v.role == w.role
    && v.topology_generation == w.topology_generation
    && v.pod_uid == w.pod_uid
    && v.process_generation == w.process_generation
    && v.rpc_endpoint == w.rpc_endpoint
    && v.global_rank == w.global_rank
    && v.topology_digest == w.topology_digest
    && v.kv_compatibility_id == w.kv_compatibility_id

unfoldable pub is_member : WorkerIdentity → WorkerRegistry → Bool
is_member w r = elim (lookup w.instance_id r.members) [
  | none ↦ false
  | some current ↦ same_identity current w
]

unfoldable pub observe_identity : WorkerIdentity → WorkerRegistry → Bool × WorkerRegistry
observe_identity w r = if is_member w r then (true, r) else (false, fail_world r)

-- `==` of two booleans, of two capabilities
abbrev pub same_flag : Bool → Bool → Bool
same_flag a b = if a then b else not b

unfoldable pub same_capability : PairCapability → PairCapability → Bool
same_capability c d =
    c.pair_id == d.pair_id
    && c.source_epoch == d.source_epoch
    && c.target_epoch == d.target_epoch
    && c.transport == d.transport
    && c.probe_generation == d.probe_generation
    && same_flag c.probe_passed d.probe_passed
    && c.evidence_path == d.evidence_path

unfoldable pub holds : Dict String PairCapability → String × PairCapability → Bool
holds caps (pair_id, c) = elim (lookup pair_id caps) [ none ↦ false | some d ↦ same_capability c d ]

-- `observed != self._capabilities`, of two dicts
unfoldable pub same_capabilities : Dict String PairCapability → Dict String PairCapability → Bool
same_capabilities observed caps = same_keys observed caps && all (holds caps) observed

unfoldable pub observe_capabilities : List PairCapability → WorkerRegistry → Bool × WorkerRegistry
observe_capabilities capabilities r =
    if same_capabilities (by_key (λ c. c.pair_id) capabilities []) r.capabilities
    then (true, r)
    else (false, fail_world r)

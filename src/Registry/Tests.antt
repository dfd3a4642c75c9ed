-- ===== src/Registry/Tests.antt =====
-- Runs of the registry, and instances of its theorems.
use prism_serve.Base.{
  ℕ, ◌-◌, ◌≤◌, String, ◌≡◌, refl, true, false, none, some, List, [], ◌∷◌, nat_key, text_key,
  pair_key,
}
use prism_serve.Base.Dict.{lookup, insert}
use prism_serve.Registry.World.{
  WorkerIdentity, instance_epoch, PairCapability, ResourceSignal, Expectation, by_key,
  is_valid_world, fail_world, install_world, same_keys, members_fit, admit_capability,
  count_distinct, is_expected_id, role_fits, is_at_epoch, transport_fits,
}
use prism_serve.Registry.Reports.{
  Report, no_fields, report_valid, schema_valid, profile_valid, fields_valid, freshness, put_signal,
  update_resource_report, signal_state, is_ready, is_fresh, can_admit,
}
use prism_serve.Registry.Invariant.{Call, installs, reports, run, admitted_is_current}

abbrev wanted : Expectation
wanted = record {
  topology_generation = "g1";
  kv_compatibility_id = none;
  model_profile = none;
  require_gpudirect_rdma = false;
  stale_after = 2;
}

abbrev worker : String → String → ℕ → WorkerIdentity
worker name role rank = record {
  instance_id = name;
  role = role;
  topology_generation = "g1";
  pod_uid = name;
  process_generation = "1";
  rpc_endpoint = "";
  global_rank = rank;
  topology_digest = "t";
  kv_compatibility_id = "k";
}

abbrev link : String → String → String → PairCapability
link pair_id source target = record {
  pair_id = pair_id;
  source_epoch = source;
  target_epoch = target;
  transport = "NCCL_GDR";
  probe_generation = "1";
  probe_passed = true;
  evidence_path = "";
}

abbrev world : Call
world =
    installs
      (worker "p0" "prefill" 0
        ∷ worker "p1" "prefill" 1
        ∷ worker "d0" "decode" 2
        ∷ worker "d1" "decode" 3
        ∷ [])
      (link "p0--d0" "p0:1" "d0:1"
        ∷ link "p0--d1" "p0:1" "d1:1"
        ∷ link "p1--d0" "p1:1" "d0:1"
        ∷ link "p1--d1" "p1:1" "d1:1"
        ∷ link "d0--d1" "d0:1" "d1:1"
        ∷ [])

abbrev healthy : Report
healthy = record {
  report_epoch = "d0:1";
  complete = true;
  has_resources = true;
  model_profile = none;
  blocks = no_fields;
}

abbrev history : List Call
history = reports 7 "d0" healthy (some 6) ∷ world ∷ []

admitted : can_admit 8 "d0" (run history wanted) ≡ true
unfolding can_admit is_ready is_fresh signal_state freshness run install_world
    update_resource_report put_signal report_valid schema_valid profile_valid fields_valid
    is_valid_world same_keys members_fit admit_capability count_distinct is_expected_id role_fits
    is_at_epoch transport_fits by_key insert lookup fail_world
admitted = refl

admitted_is_current_example :
    let r = run history wanted in
    (is_valid_world r.expected r.members r.capabilities ≡ true)
    × ((w : WorkerIdentity) × (signal : ResourceSignal) × (lookup "d0" r.members ≡ some w)
        × (lookup "d0" r.resources ≡ some signal)
        × (signal.epoch ≡ instance_epoch w)
        × (8 - signal.received_at ≤ r.expected.stale_after))
admitted_is_current_example = admitted_is_current history wanted 8 "d0" admitted

-- ===== src/Lib.antt =====
-- prism-serve: the control plane of a gateway that spreads the prefill and the decode phase of a
-- request over fixed instances and moves the KV cache between them.
--
-- The parts modelled, and how they interact. The schedule loop registers a request with the tracker,
-- asks the scheduler for a prefill and a decode instance, and hands the transfer of the KV cache to
-- the governor; the registry of workers answers whether an instance may be used, the prefix index
-- says which instance holds a prefix of the prompt, and the output buffer holds what the gateway has
-- streamed. The loop itself is not modelled: each part is taken under any row of calls.
--
--   Base        Python's dicts, exceptions, integers and tests, and the lemmas on them
--   Sample      KVUsageSample of prism_serve/scheduler/scheduler.py
--   Governor    TransferGovernor, prism_serve/scheduler/transfer_governor.py. State holds its fields,
--               Admission is can_send and what it asks, Transfers is _dispatch, submit, _on_complete,
--               cancel, tick, update_kv_usage, set_expected_epochs, Retry is on_transfer_failure and
--               finish_request. Ledger has the invariant, the others what is proved.
--   Tracker     SeqState, RequestInfo, RequestTracker and InstanceSlot,
--               prism_serve/scheduler/sequence_state.py. Operations and Stuck are the methods of
--               RequestTracker and the deadlines of RequestInfo, Slots those of InstanceSlot; the
--               others what is proved.
--   Scheduler   PDScheduler, prism_serve/scheduler/scheduler.py. Instances is register, deregister,
--               quarantine and reconcile, Pick the choice of instances and the samples, Leases the
--               leases on decode slots, Feedback on_prefill_done and on_decode_finished.
--   Output      GatewayOutputBuffer and repair_output_gap, prism_serve/gateway/output.py
--   Registry    WorkerRegistry, prism_serve/router/worker_registry.py: World the install and the
--               checks of identities and links, Reports resource reports and admission.
--   Prefix      PrefixIndex, prism_serve/router/prefix_index.py
--   Release     of ResourceReleaseEvaluator, prism_serve/scheduler/resource_release.py, the checks of
--               evidence and the local release of a record; World has release_whole_world_replaced over
--               the store and the scheduler, Durable and Recovered what is proved of it.
--   Store       ReplacementDecisionStore, prism_serve/scheduler/replacement_store.py: Records and
--               State are its data and commits, Load the restart, Decisions lookup, persist_record and
--               persist_records, Seals seal_run and the queries on seals; the others what is proved.
--   Routing     Fingerprint is prism_serve/router/fingerprint.py, Topology is
--               prism_serve/router/topology.py, Router is AffinityRouter.iter_decisions,
--               prism_serve/router/router.py, with PrefixIndex.iter_matches; the others what is proved.
--
-- Conventions. A function keeps the name of its method, without a leading underscore; an object is a
-- record, and a method that may raise is an `Action`, whose state after a raise is what was written
-- before it. Times are whole ticks of one clock, which a call takes as an argument or in its `Env`;
-- ratios are whole multiples of a unit that stands for 1.0; counts, sizes and sequence numbers are
-- natural numbers, so a negative argument is out of reach. 30% of a byte cap is rounded down. Reading
-- a defaultdict does not add the key. The identity of a Python object, where the code compares it, is
-- a number. The loop over the blocks of a
-- prompt runs on as many steps as the prompt has tokens, which is enough, since each takes a token at
-- least; every other loop follows a list or a number.
--
-- Parameters. The infer client, which takes a task or raises before the call returns, the worker
-- registry as the scheduler and the governor see it, the clock and the random tokens are fields of
-- `Env`; the keyword arguments of a transition are a function on the request. The hashes of the
-- replacement store are functions; its directory lists how each next write will go, and its file
-- is typed: `malformed` stands for all that is no JSON of the right shape. Of an exception class
-- of the program, its name and fixed text. The hash of a block of tokens and the time of a
-- transfer on a link are functions.
--
-- Not modelled. A client that completes a transfer before its call returns, as the stub in
-- prism_serve/gateway/app.py does; a callback of a task that raises or calls back into the
-- governor; the direct retry of a prefill by the schedule loop, which counts a dispatch without a
-- transition. Metrics but those of a first token, and logs; waiting and locks of asyncio (a call
-- is one step); the floating point of compute_max_slots; decode_slot_lease_counts; payload that is
-- only carried. The schedule loop, the rest of resource release, loading, reconciliation, the NATS
-- queue, the HTTP application, the RPC clients and the scripts.
pub mod Base
pub mod Sample
pub mod Governor
pub mod Tracker
pub mod Scheduler
pub mod Output
pub mod Registry
pub mod Prefix
pub mod Release
pub mod Store
pub mod Routing

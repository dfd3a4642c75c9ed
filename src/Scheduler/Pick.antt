-- ===== src/Scheduler/Pick.antt =====
-- The choice of an instance, usage samples, and the size of the decode fleet:
-- prism_serve/scheduler/scheduler.py.
use prism_serve.Base.{
  ℕ, ◌+◌, ◌-◌, ◌/◌, min, max, String, Bool, true, false, not, ◌&&◌, Option, none, some, List, [],
  ◌∷◌, ltb, leb, if◌then◌else◌, ◌==◌, nat_key, text_key, pair_key, filter,
}
use prism_serve.Base.Dict.{Dict, keys, lookup, insert, erase}
use prism_serve.Base.Int.{at_least, clamp_unit}
use prism_serve.Sample.{KvUsageSample}
use prism_serve.Scheduler.State.{Env, PdScheduler}

-- Python's `max` and `min` by a key: the first of the best.
unfoldable pub max_by {ℓ} : {A : Type ℓ} → (A → ℕ) → A → List A → A
max_by key best [] = best
max_by key best (x ∷ xs) = max_by key (if ltb (key best) (key x) then x else best) xs

unfoldable pub min_by {ℓ} : {A : Type ℓ} → (A → ℕ) → A → List A → A
min_by key best [] = best
min_by key best (x ∷ xs) = min_by key (if ltb (key x) (key best) then x else best) xs

-- `required_instance is None or instance_id == required_instance`
abbrev pub is_wanted : Option String → String → Bool
is_wanted none instance_id = true
is_wanted (some required_instance) instance_id = instance_id == required_instance

unfoldable pub prefill_candidate : Env → Option String → String × ℕ → Bool
prefill_candidate env required_instance p = env.can_route p.0 && is_wanted required_instance p.0

-- The queue of the instance that is picked, one longer.
unfoldable pub join_queue : String → ℕ → PdScheduler → PdScheduler
join_queue instance_id load s = record s {
  prefill_load = insert instance_id (load + 1) s.prefill_load;
}

unfoldable pub take_shortest : List (String × ℕ) → PdScheduler → Option String × PdScheduler
take_shortest [] s = (none, s)
take_shortest (p ∷ ps) s =
    let q = min_by (λ (e : String × ℕ). e.1) p ps in (some q.0, join_queue q.0 q.1 s)

unfoldable pub pick_prefill_instance :
    Env → Option String → PdScheduler → Option String × PdScheduler
pick_prefill_instance env required_instance s =
    take_shortest (filter (prefill_candidate env required_instance) s.prefill_load) s

unfoldable pub is_current : Option String → String → Bool
is_current none epoch = false
is_current (some current) epoch = epoch == current

unfoldable pub sample_is_fresh : PdScheduler → String → ℕ → Bool
sample_is_fresh s instance_id now = elim (lookup instance_id s.kv_usage) [
  | none ↦ false
  | some sample ↦
      is_current (lookup instance_id s.instance_epochs) sample.instance_epoch
      && leb now (sample.sampled_at + s.kv_usage_stale_after)
]

-- `self._kv_usage[iid].ratio < high_wm`, asked of instances with a sample
unfoldable pub is_below : PdScheduler → String → Bool
is_below s instance_id = elim (lookup instance_id s.kv_usage) [
  | none ↦ false
  | some sample ↦ not (at_least sample.ratio s.high_watermark)
]

unfoldable pub decode_candidate : Env → Option String → PdScheduler → String × ℕ → Bool
decode_candidate env required_instance s p =
    ltb 0 p.1
    && env.can_route p.0
    && sample_is_fresh s p.0 env.now
    && is_below s p.0
    && is_wanted required_instance p.0

-- The instance that is picked has one free slot less.
unfoldable pub take_slot : String → ℕ → PdScheduler → PdScheduler
take_slot instance_id slots s = record s {
  decode_free_slots = insert instance_id (slots - 1) s.decode_free_slots;
}

unfoldable pub take_freest : List (String × ℕ) → PdScheduler → Option String × PdScheduler
take_freest [] s = (none, s)
take_freest (p ∷ ps) s =
    let q = max_by (λ (e : String × ℕ). e.1) p ps in (some q.0, take_slot q.0 q.1 s)

unfoldable pub pick_decode_instance :
    Env → Option String → PdScheduler → Option String × PdScheduler
pick_decode_instance env required_instance s =
    take_freest (filter (decode_candidate env required_instance s) s.decode_free_slots) s

unfoldable pub update_kv_usage : String → Option KvUsageSample → PdScheduler → PdScheduler
update_kv_usage instance_id none s = record s { kv_usage = erase instance_id s.kv_usage }
update_kv_usage instance_id (some sample) s = record s {
  kv_usage =
      insert instance_id (record sample { ratio = clamp_unit s.unit sample.ratio }) s.kv_usage;
}

abbrev pub admission_ready : Env → Bool
admission_ready env = env.world_fresh

-- `math.ceil(active_kv_bytes / kv_per)`, or 1 for no bytes
unfoldable pub wanted_count : ℕ → ℕ → ℕ
wanted_count active_kv_bytes kv_per =
    if ltb 0 active_kv_bytes then (active_kv_bytes + kv_per - 1) / kv_per else 1

unfoldable pub decide_decode_instance_count : ℕ → PdScheduler → ℕ
decide_decode_instance_count active_kv_bytes s =
    max s.min_decode_instances
      (min (wanted_count active_kv_bytes s.kv_per_instance_bytes) s.max_decode_instances)

-- `decode_instance_epochs`, where a missing epoch is the KeyError of `d[k]`
unfoldable pub epochs_of : Dict String String → List String → Option (Dict String String)
epochs_of epochs [] = some []
epochs_of epochs (k ∷ ks) = elim (lookup k epochs) [
  | none ↦ none
  | some epoch ↦ elim (epochs_of epochs ks) [ none ↦ none | some d ↦ some ((k, epoch) ∷ d) ]
]

abbrev pub decode_instance_epochs : PdScheduler → Option (Dict String String)
decode_instance_epochs s = epochs_of s.instance_epochs (keys s.decode_free_slots)

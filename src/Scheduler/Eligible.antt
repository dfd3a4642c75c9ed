-- ===== src/Scheduler/Eligible.antt =====
-- Which instances may be picked, prism_serve/scheduler/scheduler.py.
use prism_serve.Base.{
  ℕ, ◌+◌, ◌≤◌, ◌<◌, String, ◌≡◌, refl, subst, ◌↔◌, inl, inr, true, false, ◌&&◌, Option, none, some,
  arith, Option-cases, nat_key, text_key, pair_key, triple_key, str_eq_iff, Bool,
}
use prism_serve.Base.Dict.{Dict, lookup}
use prism_serve.Base.Int.{at_least}
use prism_serve.Sample.{KvUsageSample}
use prism_serve.Scheduler.State.{Env, PdScheduler}
use prism_serve.Scheduler.Pick.{
  is_wanted, is_current, sample_is_fresh, is_below, decode_candidate, prefill_candidate,
}
use prism_serve.Scheduler.Best.{Chosen}

-- A sample of the instance that is of its current epoch, not too old, and below the watermark.
abbrev pub HasRoom : Env → PdScheduler → String → Type 0
HasRoom env s i =
    (sample : KvUsageSample) × (lookup i s.kv_usage ≡ some sample)
    × (lookup i s.instance_epochs ≡ some sample.instance_epoch)
    × (env.now ≤ sample.sampled_at + s.kv_usage_stale_after)
    × (at_least sample.ratio s.high_watermark ≡ false)

-- What a decode instance with some free slots needs to be picked.
abbrev pub IsEligible : Env → Option String → PdScheduler → String → ℕ → Type 0
IsEligible env required_instance s i n =
    (0 < n)
    × (env.can_route i ≡ true)
    × HasRoom env s i
    × ((j : String) → required_instance ≡ some j → i ≡ j)

-- What a prefill instance needs to be picked.
abbrev pub IsRoutable : Env → Option String → String → ℕ → Type 0
IsRoutable env required_instance i n =
    (env.can_route i ≡ true) × ((j : String) → required_instance ≡ some j → i ≡ j)

-- What a pick gives: one of those that may be picked, which is as good as any of the others; or there
-- is none that may be picked.
abbrev pub Picked :
    (String → ℕ → Type 0) → (ℕ → ℕ → Type 0) → Dict String ℕ → Option String → Type 0
Picked P le d none = (k : String) (n : ℕ) → lookup k d ≡ some n → P k n → ⊥
Picked P le d (some i) =
    (n : ℕ) × (lookup i d ≡ some n)
    × P i n
    × ((k : String) (m : ℕ) → lookup k d ≡ some m → P k m → le m n)

wanted_lem :
    (required_instance : Option String) (i : String)
    → (is_wanted required_instance i ≡ true) ↔ ((j : String) → required_instance ≡ some j → i ≡ j)
wanted_lem none i = (λ h j e. cc, λ h. refl)
wanted_lem (some j) i = (
  λ h j' e. (str_eq_iff i j').0 (subst (λ o. is_wanted o i ≡ true) e h),
  λ h. (str_eq_iff i j).1 (h j refl),
)

room_there :
    (env : Env) (s : PdScheduler) (i : String)
    → (sample_is_fresh s i env.now && is_below s i) ≡ true
    → HasRoom env s i
unfolding sample_is_fresh is_below is_current
room_there env s i h = elim (Option-cases (lookup i s.kv_usage)) [
  | inl e ↦ absurd (ground (arith, e, h))
  | inr (x, e) ↦ elim (Option-cases (lookup i s.instance_epochs)) [
    | inl f ↦ absurd (ground (arith, e, f, h))
    | inr (epoch, f) ↦ (
      x,
      e,
      ground (arith, e, f, h, str_eq_iff x.instance_epoch epoch),
      ground (arith, e, f, h),
      ground (arith, e, f, h),
    )
  ]
]

there_room :
    (env : Env) (s : PdScheduler) (i : String)
    → HasRoom env s i
    → (sample_is_fresh s i env.now && is_below s i) ≡ true
unfolding sample_is_fresh is_below is_current
there_room env s i (x, e, f, l, b) =
    ground (arith, e, f, l, b, str_eq_iff x.instance_epoch x.instance_epoch)

pub candidate-IsEligible :
    (env : Env) (required_instance : Option String) (s : PdScheduler) (i : String) (n : ℕ)
    → (decode_candidate env required_instance s (i, n) ≡ true)
      ↔ IsEligible env required_instance s i n
unfolding decode_candidate
candidate-IsEligible env required_instance s i n = (
  λ h. (
    ground (arith, h),
    ground (arith, h),
    room_there env s i (ground (arith, h)),
    (wanted_lem required_instance i).0 (ground (arith, h)),
  ),
  λ (p, c, r, w). ground (arith, p, c, there_room env s i r, (wanted_lem required_instance i).1 w),
)

pub candidate-IsRoutable :
    (env : Env) (required_instance : Option String) (i : String) (n : ℕ)
    → (prefill_candidate env required_instance (i, n) ≡ true) ↔ IsRoutable env required_instance i n
unfolding prefill_candidate
candidate-IsRoutable env required_instance i n = (
  λ h. (ground (arith, h), (wanted_lem required_instance i).0 (ground (arith, h))),
  λ (c, w). ground (arith, c, (wanted_lem required_instance i).1 w),
)

-- A best candidate, where the test of candidates means what is needed.
pub Chosen-Picked :
    (candidate : String × ℕ → Bool) (P : String → ℕ → Type 0) (le : ℕ → ℕ → Type 0)
    (d : Dict String ℕ) (r : Option String)
    → ((k : String) (n : ℕ) → (candidate (k, n) ≡ true) ↔ P k n)
    → Chosen candidate le d r
    → Picked P le d r
Chosen-Picked candidate P le d none means c =
    λ k n h p. absurd (ground (arith, c k n h, (means k n).1 p))
Chosen-Picked candidate P le d (some i) means (n, h, t, best) =
    (n, h, (means i n).0 t, λ k m e p. best k m e ((means k m).1 p))

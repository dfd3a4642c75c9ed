-- ===== src/Sample.antt =====
-- KV usage samples (prism_serve/scheduler/scheduler.py). Times are whole clock ticks; ratios are
-- whole multiples of a unit that stands for 1.0.
use prism_serve.Base.{ℕ, String}
use prism_serve.Base.Int.{ℤ}

pub record KvUsageSample : Type 0 where
  pub ratio : ℤ
  pub instance_epoch : String
  pub sampled_at : ℕ

-- ===== src/Governor/Admission.antt =====
-- Admission: fresh usage samples, watermarks and the byte cap of a pair,
-- prism_serve/scheduler/transfer_governor.py.
use prism_serve.Base.{
  ℕ, ◌+◌, ◌*◌, ◌/◌, String, Bool, true, false, not, ◌&&◌, Option, none, some, ltb, leb,
  if◌then◌else◌, ◌==◌, nat_key, text_key, pair_key,
}
use prism_serve.Base.Int.{at_least}
use prism_serve.Base.Dict.{lookup}
use prism_serve.Governor.State.{Env, Governor, pair_id, pair_bytes, dst_bytes}

-- `epoch == expected.get(instance_id)`
abbrev pub epoch_expected : String → Option String → Bool
epoch_expected epoch none = false
epoch_expected epoch (some wanted) = epoch == wanted

unfoldable pub sample_is_fresh : Governor → String → ℕ → Bool
sample_is_fresh g instance_id now = elim (lookup instance_id g.kv_usage) [
  | none ↦ false
  | some sample ↦
      epoch_expected sample.instance_epoch (lookup instance_id g.expected_epochs)
      && leb now (sample.sampled_at + g.stale_after)
]

-- `self._kv_usage[dst].ratio >= self.HIGH_WATERMARK`
unfoldable pub is_congested : Governor → String → Bool
is_congested g dst = elim (lookup dst g.kv_usage) [
  | none ↦ false
  | some sample ↦ at_least sample.ratio g.high_watermark
]

-- The cap of a pair: 30% of it for background work, rounded down as byte counts are whole.
unfoldable pub cap : Governor → ℕ → ℕ
cap g priority = if leb 1 priority then g.max_bytes else g.max_bytes * 3 / 10

-- An oversized task goes alone.
unfoldable pub fits : ℕ → ℕ → ℕ → Bool
fits current size_bytes limit =
    if ltb limit size_bytes then current == 0 else leb (current + size_bytes) limit

abbrev pub source_governed : Env → Option String → Bool
source_governed env none = true
source_governed env (some src) = env.can_govern src

abbrev pub current_bytes : Governor → String → Option String → ℕ
current_bytes g dst none = dst_bytes g dst
current_bytes g dst (some src) = pair_bytes g (pair_id src dst)

unfoldable pub can_send : Env → Governor → String → ℕ → ℕ → Option String → Bool
can_send env g dst size_bytes priority src =
    if not (env.can_govern dst)
    then false
    else if not (source_governed env src)
    then false
    else if not (sample_is_fresh g dst env.now)
    then false
    else if is_congested g dst
    then false
    else fits (current_bytes g dst src) size_bytes (cap g priority)

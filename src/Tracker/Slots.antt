-- ===== src/Tracker/Slots.antt =====
-- InstanceSlot: prism_serve/scheduler/sequence_state.py.
use prism_serve.Base.{
  ℕ, ◌-◌, String, Bool, false, not, Option, ltb, if◌then◌else◌, is_some, nat_key, text_key,
  pair_key,
}

pub record InstanceSlot : Type 0 where
  pub instance_id : String
  pub seq_id : Option String
  pub allocated_at : ℕ

unfoldable pub is_idle : InstanceSlot → Bool
is_idle s = not (is_some s.seq_id)

unfoldable pub is_stale : ℕ → ℕ → InstanceSlot → Bool
is_stale now timeout s = if is_some s.seq_id then ltb timeout (now - s.allocated_at) else false

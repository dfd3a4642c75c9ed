-- ===== src/Routing/Topology.antt =====
-- The cost of a transfer between two instances: prism_serve/router/topology.py.
use prism_serve.Base.{
  ℕ, String, Option, none, some, if◌then◌else◌, ◌==◌, nat_key, text_key, pair_key, triple_key,
}
use prism_serve.Base.Dict.{Dict, lookup, insert}

-- Bandwidth and overhead are whole multiples of units.
pub record LinkInfo : Type 0 where
  pub kind : String
  pub measured_gbps : ℕ
  pub fixed_overhead_ms : ℕ

-- What a transfer of so many bytes takes on a link that has bandwidth.
abbrev pub LinkTime : Type 0
LinkTime = LinkInfo → ℕ → ℕ

abbrev pub TopologyMatrix : Type 0
TopologyMatrix = Dict (String × String) LinkInfo

unfoldable pub set_link : String → String → LinkInfo → TopologyMatrix → TopologyMatrix
set_link source target link links = insert (source, target) link links

-- The time on a link; `none` is infinity.
unfoldable pub link_cost : LinkTime → Option LinkInfo → ℕ → Option ℕ
link_cost time none size_bytes = none
link_cost time (some link) size_bytes =
    if link.measured_gbps == 0 then none else some (time link size_bytes)

unfoldable pub transfer_cost_ms : LinkTime → TopologyMatrix → String → String → ℕ → Option ℕ
transfer_cost_ms time links source target size_bytes =
    if source == target then some 0 else link_cost time (lookup (source, target) links) size_bytes

-- ===== src/Stats/Laws.antt =====
-- The algebra of `NodeStats::accumulate`, saturation included, and what `for_operations` counts.
use ncda.Base.{◌≤◌, ◌≡◌, u64_max, arith}
use ncda.Stats.{NodeStats, zero_stats, accumulate}

-- Every counter holds a `u64`.
pub record Fits (s : NodeStats) : Type 0 where
  pub read_bytes : s.read_bytes ≤ u64_max
  pub write_bytes : s.write_bytes ≤ u64_max
  pub read_ops : s.read_ops ≤ u64_max
  pub write_ops : s.write_ops ≤ u64_max
  pub open_ops : s.open_ops ≤ u64_max
  pub close_ops : s.close_ops ≤ u64_max
  pub total_latency_ns : s.total_latency_ns ≤ u64_max
  pub max_latency_ns : s.max_latency_ns ≤ u64_max

pub accumulate_assoc :
    (a b c : NodeStats) → accumulate (accumulate a b) c ≡ accumulate a (accumulate b c)
unfolding accumulate
accumulate_assoc a b c = ground arith

pub accumulate_comm : (a b : NodeStats) → accumulate a b ≡ accumulate b a
unfolding accumulate
accumulate_comm a b = ground arith

-- Adding to a fresh record first makes no difference.
pub accumulate-zero_stats :
    (a b : NodeStats) → accumulate a (accumulate zero_stats b) ≡ accumulate a b
unfolding accumulate
accumulate-zero_stats a b = ground arith

-- A fresh record takes over a delta as it is.
pub zero_stats-accumulate : (a : NodeStats) → Fits a → accumulate zero_stats a ≡ a
unfolding accumulate
zero_stats-accumulate a fits = ground arith

pub accumulate-Fits : (a b : NodeStats) → Fits a → Fits b → Fits (accumulate a b)
unfolding accumulate
accumulate-Fits a b fa fb = omega arith

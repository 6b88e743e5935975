-- ===== src/Stats.antt =====
-- `NodeStats` and `OpKind` of ncda/src/model.rs: the I/O counters of a file, a directory or a
-- process, over saturating `u64`s.
pub mod Laws
use ncda.Base.{unwrap_or, ℕ, ◌/◌, Option, none, some, max, saturating_add, nat_beq, if◌then◌else◌}

pub record NodeStats : Type 0 where
  pub read_bytes : ℕ
  pub write_bytes : ℕ
  pub read_ops : ℕ
  pub write_ops : ℕ
  pub open_ops : ℕ
  pub close_ops : ℕ
  pub total_latency_ns : ℕ
  pub max_latency_ns : ℕ

pub data OpKind : Type 0 where
  open_op read_op write_op close_op : OpKind

-- `NodeStats::default()`
abbrev pub zero_stats : NodeStats
zero_stats = record {
  read_bytes = 0;
  write_bytes = 0;
  read_ops = 0;
  write_ops = 0;
  open_ops = 0;
  close_ops = 0;
  total_latency_ns = 0;
  max_latency_ns = 0;
}

unfoldable pub total_bytes : NodeStats → ℕ
total_bytes s = saturating_add s.read_bytes s.write_bytes

unfoldable pub total_ops : NodeStats → ℕ
total_ops s =
    saturating_add (saturating_add (saturating_add s.read_ops s.write_ops) s.open_ops) s.close_ops

-- `u64::checked_div`
pub checked_div : ℕ → ℕ → Option ℕ
checked_div a b = if nat_beq b 0 then none else some (a / b)

unfoldable pub avg_latency_ns : NodeStats → ℕ
unfolding checked_div
avg_latency_ns s =
    let ops = saturating_add s.read_ops s.write_ops in
    unwrap_or (checked_div s.total_latency_ns ops) 0

unfoldable pub accumulate : NodeStats → NodeStats → NodeStats
accumulate self other = record {
  read_bytes = saturating_add self.read_bytes other.read_bytes;
  write_bytes = saturating_add self.write_bytes other.write_bytes;
  read_ops = saturating_add self.read_ops other.read_ops;
  write_ops = saturating_add self.write_ops other.write_ops;
  open_ops = saturating_add self.open_ops other.open_ops;
  close_ops = saturating_add self.close_ops other.close_ops;
  total_latency_ns = saturating_add self.total_latency_ns other.total_latency_ns;
  max_latency_ns = max self.max_latency_ns other.max_latency_ns;
}

unfoldable pub for_operations : OpKind → ℕ → ℕ → ℕ → ℕ → NodeStats
for_operations open_op bytes operations total_latency max_latency = record zero_stats {
  open_ops = operations;
}
for_operations read_op bytes operations total_latency max_latency = record zero_stats {
  read_bytes = bytes;
  read_ops = operations;
  total_latency_ns = total_latency;
  max_latency_ns = max_latency;
}
for_operations write_op bytes operations total_latency max_latency = record zero_stats {
  write_bytes = bytes;
  write_ops = operations;
  total_latency_ns = total_latency;
  max_latency_ns = max_latency;
}
for_operations close_op bytes operations total_latency max_latency = record zero_stats {
  close_ops = operations;
}

-- ===== src/Process.antt =====
-- `ProcessTable` of ncda/src/process.rs: the I/O of each process.
use ncda.Base.{ℕ, Option, none, [], Bytes, trim, unwrap_or, is_some, if◌then◌else◌, nat_eq}
use ncda.Base.HashMap.{HashMap, get, insert, remove}
use ncda.Stats.{NodeStats, OpKind, zero_stats, accumulate, for_operations}
use ncda.Procfs.{Procfs}

pub record ProcessInfo : Type 0 where
  pub pid : ℕ
  pub comm : Bytes
  pub container : Option Bytes
  pub stats : NodeStats

pub record ProcessTable : Type 0 where
  pub processes : HashMap ℕ ProcessInfo

pub new : ProcessTable
new = record { processes = [] }

-- `read_to_string(...).unwrap_or_default().trim()`
pub read_comm : Procfs → ℕ → Bytes
read_comm proc pid = trim (unwrap_or (proc.comm pid) [])

-- `processes.entry(pid).or_insert_with(...)`
pub entry_info : Procfs → ℕ → Option Bytes → ProcessTable → ProcessInfo
entry_info proc pid container t =
    unwrap_or (get pid t.processes)
      (record { pid = pid; comm = read_comm proc pid; container = container; stats = zero_stats })

unfoldable pub record_stats_with_context :
    Procfs → ℕ → Option Bytes → NodeStats → ProcessTable → ProcessTable
record_stats_with_context proc pid container delta t =
    let info = entry_info proc pid container t in
    record t {
      processes =
          insert pid
            (record info {
              container = if is_some info.container then info.container else container;
              stats = accumulate info.stats delta;
            })
            t.processes;
    }

unfoldable pub record_with_context :
    Procfs → ℕ → Option Bytes → OpKind → ℕ → ℕ → ProcessTable → ProcessTable
record_with_context proc pid container op bytes latency_ns t =
    record_stats_with_context proc pid container (for_operations op bytes 1 latency_ns latency_ns) t

pub record_op : Procfs → ℕ → OpKind → ℕ → ℕ → ProcessTable → ProcessTable
record_op proc pid op bytes latency_ns t = record_with_context proc pid none op bytes latency_ns t

unfoldable pub remove_process : ℕ → ProcessTable → ProcessTable
remove_process pid t = record t { processes = remove pid t.processes }

unfoldable pub reset : ProcessTable → ProcessTable
reset t = record t { processes = [] }

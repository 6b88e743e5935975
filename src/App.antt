-- ===== src/App.antt =====
-- `AppState` of ncda/src/tui/app.rs: how a batch of events becomes counters. Each event comes with
-- what procfs reads while it is handled, and the batch with the instant at which it is observed.
mod Groups
pub mod Batches
pub mod Lifecycle
mod Coalescing
mod Examples
use ncda.Base.{
  ℕ, ◌+◌, ◌-◌, Bool, true, false, not, ◌&&◌, ◌||◌, Option, none, some, List, [], ◌∷◌, ◌++◌, Bytes,
  length, any, set, ascii, starts_with, trim_end_matches, unwrap_or, ltb, leb, nat_beq,
  saturating_add, saturating_sub, u64_max, min, if◌then◌else◌, ◌==◌, nat_eq, list_eq, ℤ,
  is_negative, int_is_zero,
}
use ncda.Base.HashMap.{HashMap, get, insert, remove, keys}
use ncda.Stats.{NodeStats, OpKind, open_op, read_op, write_op, close_op}
use ncda.Procfs.{Procfs}
use ncda.Wire.{
  BpfEvent, open_event, read_event, write_event, close_event, dup_event, close_range_event,
  process_exec, process_exit,
}
use ncda.Tree
use ncda.Fd
use ncda.Fd.{PathResolution, resolved, unresolved, ignored, is_cloexec}
use ncda.Container
use ncda.Process
use ncda.Rate
use ncda.Events
use ncda.App.Groups.{
  IoKey, io_key_eq, IoGroup, group_stats, Batch, empty_batch, group_at, accumulate_io_group,
}

pub record AppState : Type 0 where
  pub tree : Tree.FileTree
  pub fd_cache : Fd.FdPathCache
  pub containers : Container.ContainerResolver
  pub process_table : Process.ProcessTable
  pub event_log : Events.EventLog
  pub global_rate : Rate.RateTracker
  pub total_events : ℕ
  pub dropped_events : ℕ
  pub drop_total : ℕ
  pub drop_baseline : ℕ
  pub attribution_failures : ℕ
  pub ignored_non_file_events : ℕ
  pub failed_io_events : ℕ
  pub zero_byte_io_events : ℕ
  pub exclude_prefixes : List Bytes

unfoldable pub new : ℕ → List Bytes → AppState
new rate_window exclude_prefixes = record {
  tree = Tree.new;
  fd_cache = Fd.new;
  containers = Container.new;
  process_table = Process.new;
  event_log = Events.new rate_window;
  global_rate = Rate.new rate_window;
  total_events = 0;
  dropped_events = 0;
  drop_total = 0;
  drop_baseline = 0;
  attribution_failures = 0;
  ignored_non_file_events = 0;
  failed_io_events = 0;
  zero_byte_io_events = 0;
  exclude_prefixes = exclude_prefixes;
}

pub record_io_outcome : ℤ → AppState → AppState
record_io_outcome result s =
    if is_negative result
    then record s { failed_io_events = saturating_add s.failed_io_events 1 }
    else if int_is_zero result
    then record s { zero_byte_io_events = saturating_add s.zero_byte_io_events 1 }
    else s

-- A path at or below an excluded prefix.
pub excludes : Bytes → Bytes → Bool
excludes path prefix =
    let trimmed = trim_end_matches b'/' prefix in
    path == trimmed || starts_with (trimmed ++ b'/' ∷ []) path

pub is_excluded : Bytes → AppState → Bool
is_excluded path s = any (excludes path) s.exclude_prefixes

-- `/[{name}]{path}`
abbrev pub in_container : Option Bytes → Bytes → Bytes
in_container none path = path
in_container (some name) path = ascii "/[" ++ name ++ b']' ∷ path

pub resolve_container : Procfs → ℕ → AppState → Option Bytes × AppState
resolve_container proc pid s =
    let (name, containers') = Container.resolve proc pid s.containers in
    (name, record s { containers = containers' })

pub decorate_path : Procfs → ℕ → Bytes → AppState → Bytes × AppState
decorate_path proc pid path s =
    let (name, s') = resolve_container proc pid s in (in_container name path, s')

pub record_process : Procfs → ℕ → OpKind → ℕ → ℕ → AppState → AppState
record_process proc pid op bytes latency_ns s =
    let (container, s') = resolve_container proc pid s in
    record s' {
      process_table =
          Process.record_with_context proc pid container op bytes latency_ns s'.process_table;
    }

-- What a resolution counts, and the path that it gives.
pub note_resolution : PathResolution → AppState → Option Bytes × AppState
note_resolution (resolved path) s = (some path, s)
note_resolution (unresolved path) s =
    (some path, record s { attribution_failures = saturating_add s.attribution_failures 1 })
note_resolution ignored s =
    (none, record s { ignored_non_file_events = saturating_add s.ignored_non_file_events 1 })

abbrev store_path : ℕ → ℕ → Bytes → AppState → AppState
store_path pid fd path s = record s { fd_cache = Fd.store pid fd path s.fd_cache }

pub resolve_fd_path : Procfs → ℕ → ℕ → AppState → Option Bytes × AppState
resolve_fd_path proc pid fd s = elim (Fd.lookup pid fd s.fd_cache) [
  | some path ↦ (some path, s)
  | none ↦
      let (resolution, cache) = Fd.resolve_existing proc pid fd s.fd_cache in
      let (found, s') = note_resolution resolution (record s { fd_cache = cache }) in
      elim found [ none ↦ (none, s') | some path ↦ (some path, store_path pid fd path s') ]
]

-- A group whose path is known and not excluded, into every table.
pub record_group_at : Procfs → IoGroup → Bytes → AppState → AppState
record_group_at proc g path s =
    let (container, s') = resolve_container proc g.key.pid s in
    let display_path = in_container container path in
    let stats = group_stats g in
    record s' {
      tree = Tree.record_stats display_path g.key.pid stats s'.tree;
      process_table =
          Process.record_stats_with_context proc g.key.pid container stats s'.process_table;
      global_rate = Rate.record_at g.observed_at g.bytes s'.global_rate;
      event_log = Events.record_at g.observed_at display_path g.key.pid g.bytes s'.event_log;
    }

pub record_io_group : Procfs → IoGroup → AppState → AppState
record_io_group proc g s =
    let (found, s') = resolve_fd_path proc g.key.pid g.key.fd s in
    elim found [
      | none ↦ record s' {
        ignored_non_file_events =
            saturating_add s'.ignored_non_file_events (saturating_sub g.operations 1);
      }
      | some path ↦ if is_excluded path s' then s' else record_group_at proc g path s'
    ]

-- An open that resolved: the cache takes the path, and the tables an open.
pub ingest_opened : Procfs → ℕ → ℕ → Bytes → AppState → AppState
ingest_opened proc pid fd path s =
    let s1 = store_path pid fd path s in
    if is_excluded path s1
    then s1
    else let (display_path, s2) = decorate_path proc pid path s1 in
      record_process proc pid open_op 0 0
        (record s2 { tree = Tree.record_op display_path pid open_op 0 0 s2.tree })

pub ingest_open : Procfs → ℕ → ℕ → ℤ → Bytes → ℕ → AppState → AppState
ingest_open proc pid fd dirfd path path_flags s =
    let (resolution, cache) = Fd.resolve proc pid fd dirfd path path_flags s.fd_cache in
    let (found, s') = note_resolution resolution (record s { fd_cache = cache }) in
    elim found [ none ↦ s' | some p ↦ ingest_opened proc pid fd p s' ]

-- The counters of a close, of a descriptor whose path is known.
pub count_close : Procfs → ℕ → ℕ → AppState → AppState
count_close proc pid fd s = elim (Fd.lookup pid fd s.fd_cache) [
  | none ↦ s
  | some path ↦
      if is_excluded path s
      then s
      else let (display_path, s') = decorate_path proc pid path s in
        record_process proc pid close_op 0 0
          (record s' { tree = Tree.record_op display_path pid close_op 0 0 s'.tree })
]

pub ingest_close : Procfs → ℕ → ℕ → AppState → AppState
ingest_close proc pid fd s =
    let s' = count_close proc pid fd s in record s' { fd_cache = Fd.on_close pid fd s'.fd_cache }

pub ingest_dup : Procfs → ℕ → ℕ → ℕ → AppState → AppState
ingest_dup proc pid old_fd new_fd s =
    let (source, s') = resolve_fd_path proc pid old_fd s in
    let s'' =
      if nat_beq old_fd new_fd
      then s'
      else record s' { fd_cache = Fd.on_close pid new_fd s'.fd_cache } in
    elim source [ none ↦ s'' | some path ↦ store_path pid new_fd path s'' ]

-- A process generation ends: what is kept of it are the counters of the files and the event log.
pub forget_process : ℕ → AppState → AppState
forget_process pid s = record s {
  fd_cache = Fd.on_process_reset pid s.fd_cache;
  containers = Container.invalidate_pid pid s.containers;
  process_table = Process.remove_process pid s.process_table;
  tree = Tree.remove_process pid s.tree;
}

-- `none` is `unreachable!`
pub ingest_lifecycle : Procfs → BpfEvent → AppState → Option AppState
ingest_lifecycle proc (open_event pid tid fd dirfd path path_flags emitted) s =
    some (ingest_open proc pid fd dirfd path path_flags s)
ingest_lifecycle proc (close_event pid tid fd emitted) s = some (ingest_close proc pid fd s)
ingest_lifecycle proc (dup_event pid tid old_fd new_fd emitted) s =
    some (ingest_dup proc pid old_fd new_fd s)
ingest_lifecycle proc (close_range_event pid tid first_fd last_fd flags emitted) s =
    some (record s { fd_cache = Fd.on_close_range pid first_fd last_fd flags s.fd_cache })
ingest_lifecycle proc (process_exec pid emitted) s = some (forget_process pid s)
ingest_lifecycle proc (process_exit pid emitted) s = some (forget_process pid s)
ingest_lifecycle proc (read_event pid tid fd bytes result latency emitted) s = none
ingest_lifecycle proc (write_event pid tid fd bytes result latency emitted) s = none

unfoldable pub update_drop_total : ℕ → AppState → AppState
update_drop_total total s = record s {
  fd_cache = (if ltb s.drop_total total then Fd.invalidate_all s.fd_cache else s.fd_cache);
  drop_total = total;
  dropped_events = saturating_sub total s.drop_baseline;
}

pub reset : AppState → AppState
reset s = record s {
  tree = Tree.reset s.tree;
  process_table = Process.reset s.process_table;
  event_log = Events.reset s.event_log;
  global_rate = Rate.reset s.global_rate;
  total_events = 0;
  drop_baseline = s.drop_total;
  dropped_events = 0;
  attribution_failures = 0;
  ignored_non_file_events = 0;
  failed_io_events = 0;
  zero_byte_io_events = 0;
}

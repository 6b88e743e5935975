-- ===== src/App/Batches.antt =====
-- `AppState::ingest` of ncda/src/tui/app.rs and the flushing of its groups: a batch of events, where
-- each successful read or write joins a group, and each lifecycle event flushes the groups that it
-- ends. `none` is a panic: an index to no group, or an event where the code says `unreachable!`.
mod Active
pub mod Counted
pub mod Safety
use ncda.Base.{
  ℕ, Bool, true, false, ◌&&◌, ◌||◌, Option, none, some, List, [], ◌∷◌, length, set, leb, nat_beq,
  saturating_add, u64_max, min, if◌then◌else◌, ℤ, is_negative, int_is_zero,
}
use ncda.Base.HashMap.{get, remove, keys}
use ncda.Stats.{OpKind, read_op, write_op}
use ncda.Procfs.{Procfs}
use ncda.Wire.{
  BpfEvent, open_event, read_event, write_event, close_event, dup_event, close_range_event,
  process_exec, process_exit,
}
use ncda.Fd.{is_cloexec}
use ncda.App.{AppState, record_io_group, record_io_outcome, ingest_lifecycle}
use ncda.App.Groups.{IoKey, io_key_eq, IoGroup, Batch, empty_batch, group_at, accumulate_io_group}

-- A group leaves its batch.
pub flush_io_key : Procfs → IoKey → AppState × Batch → Option (AppState × Batch)
flush_io_key proc key (s, b) = elim (get key b.positions) [
  | none ↦ some (s, b)
  | some i ↦ elim (group_at b i) [
    | none ↦ none
    | some g ↦ some (
      record_io_group proc g s,
      record { groups = set b.groups i none; positions = remove key b.positions },
    )
  ]
]

infixl 5 ◌>>=◌
abbrev pub ◌>>=◌ {ℓ} : {A B : Type ℓ} → Option A → (A → Option B) → Option B
none >>= f = none
some a >>= f = f a

pub flush_keys : Procfs → List IoKey → AppState × Batch → Option (AppState × Batch)
flush_keys proc [] sb = some sb
flush_keys proc (key ∷ rest) sb = flush_io_key proc key sb >>= flush_keys proc rest

abbrev pub fd_keys : ℕ → ℕ → List IoKey
fd_keys pid fd =
    record { pid = pid; fd = fd; op = read_op } ∷ record { pid = pid; fd = fd; op = write_op } ∷ []

abbrev pub flush_fd_groups : Procfs → ℕ → ℕ → AppState × Batch → Option (AppState × Batch)
flush_fd_groups proc pid fd sb = flush_keys proc (fd_keys pid fd) sb

abbrev pub filter_keys : (IoKey → Bool) → List IoKey → List IoKey
filter_keys p [] = []
filter_keys p (k ∷ ks) = let rest = filter_keys p ks in if p k then k ∷ rest else rest

pub flush_lifecycle_groups : Procfs → BpfEvent → AppState × Batch → Option (AppState × Batch)
flush_lifecycle_groups proc (open_event pid tid fd dirfd path path_flags emitted) sb =
    flush_fd_groups proc pid fd sb
flush_lifecycle_groups proc (close_event pid tid fd emitted) sb = flush_fd_groups proc pid fd sb
flush_lifecycle_groups proc (dup_event pid tid old_fd new_fd emitted) sb =
    flush_fd_groups proc pid old_fd sb >>= λ sb'.
    if nat_beq old_fd new_fd then some sb' else flush_fd_groups proc pid new_fd sb'
flush_lifecycle_groups proc (close_range_event pid tid first_fd last_fd flags emitted) (s, b) =
    if is_cloexec flags
    then some (s, b)
    else flush_keys proc
        (filter_keys (λ k. nat_beq k.pid pid && leb first_fd k.fd && leb k.fd last_fd)
          (keys b.positions))
        (s, b)
flush_lifecycle_groups proc (process_exec pid emitted) (s, b) =
    flush_keys proc (filter_keys (λ k. nat_beq k.pid pid) (keys b.positions)) (s, b)
flush_lifecycle_groups proc (process_exit pid emitted) (s, b) =
    flush_keys proc (filter_keys (λ k. nat_beq k.pid pid) (keys b.positions)) (s, b)
flush_lifecycle_groups proc (read_event pid tid fd bytes result latency emitted) sb = none
flush_lifecycle_groups proc (write_event pid tid fd bytes result latency emitted) sb = none

-- A read or a write of `ingest`'s loop.
pub ingest_io : ℕ → OpKind → ℕ → ℕ → ℕ → ℤ → ℕ → AppState × Batch → Option (AppState × Batch)
ingest_io observed_at op pid fd bytes result latency_ns (s, b) =
    let s' = record_io_outcome result s in
    if is_negative result || int_is_zero result
    then some (s', b)
    else elim (accumulate_io_group (record { pid = pid; fd = fd; op = op }) bytes latency_ns
        observed_at b) [ none ↦ none | some b' ↦ some (s', b') ]

pub ingest_barrier : Procfs → BpfEvent → AppState × Batch → Option (AppState × Batch)
ingest_barrier proc event sb = flush_lifecycle_groups proc event sb >>= λ sb'.
    ingest_lifecycle proc event sb'.0 >>= λ s. some (s, sb'.1)

pub ingest_event : ℕ → Procfs → BpfEvent → AppState × Batch → Option (AppState × Batch)
ingest_event observed_at proc (read_event pid tid fd bytes result latency emitted) sb =
    ingest_io observed_at read_op pid fd bytes result latency sb
ingest_event observed_at proc (write_event pid tid fd bytes result latency emitted) sb =
    ingest_io observed_at write_op pid fd bytes result latency sb
ingest_event observed_at proc lifecycle sb = ingest_barrier proc lifecycle sb

pub ingest_events : ℕ → List (Procfs × BpfEvent) → AppState × Batch → Option (AppState × Batch)
ingest_events observed_at [] sb = some sb
ingest_events observed_at ((proc, event) ∷ rest) sb =
    ingest_event observed_at proc event sb >>= ingest_events observed_at rest

-- `groups.drain(..).flatten()`
pub flush_io_groups : Procfs → List (Option IoGroup) → AppState → AppState
flush_io_groups proc [] s = s
flush_io_groups proc (none ∷ gs) s = flush_io_groups proc gs s
flush_io_groups proc (some g ∷ gs) s = flush_io_groups proc gs (record_io_group proc g s)

-- `proc` is what procfs reads when the rest of the batch is flushed.
pub ingest : ℕ → Procfs → List (Procfs × BpfEvent) → AppState → Option AppState
ingest observed_at proc events s =
    let s' = record s {
      total_events = saturating_add s.total_events (min (length events) u64_max);
    } in
    ingest_events observed_at events (s', empty_batch) >>= λ sb.
    some (flush_io_groups proc sb.1.groups sb.0)

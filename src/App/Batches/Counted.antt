-- ===== src/App/Batches/Counted.antt =====
-- `AppState::ingest` of ncda/src/tui/app.rs counts each event of a batch once, whatever it is.
use ncda.Base.{
  ℕ, ◌≡◌, refl, sym, ◌∙◌, Option, none, some, List, [], ◌∷◌, Bytes, length, saturating_add, u64_max,
  min, arith, ◌||◌, ℤ, is_negative, int_is_zero, Bool-cases, inl, inr, nat_beq, set,
}
use ncda.Base.HashMap.{get, remove}
use ncda.Stats.{OpKind, read_op, write_op}
use ncda.Procfs.{Procfs}
use ncda.Wire.{
  BpfEvent, open_event, read_event, write_event, close_event, dup_event, close_range_event,
  process_exec, process_exit,
}
use ncda.Fd
use ncda.Fd.{PathResolution, resolved, unresolved, ignored, is_cloexec}
use ncda.App.{
  AppState, record_io_outcome, resolve_container, decorate_path, record_process, note_resolution,
  resolve_fd_path, record_group_at, record_io_group, ingest_opened, ingest_open, count_close,
  ingest_close, ingest_dup, forget_process, ingest_lifecycle,
}
use ncda.App.Groups.{IoKey, io_key_eq, IoGroup, Batch, empty_batch, group_at, accumulate_io_group}
use ncda.App.Batches.{
  ◌>>=◌, flush_io_key, flush_keys, flush_lifecycle_groups, fd_keys, ingest_io, ingest_barrier,
  ingest_event, ingest_events, flush_io_groups, ingest,
}

note_resolution-total :
    (r : PathResolution) (s : AppState) → (note_resolution r s).1.total_events ≡ s.total_events
unfolding note_resolution
note_resolution-total (resolved p) s = refl
note_resolution-total (unresolved p) s = refl
note_resolution-total ignored s = refl

resolve_fd_path-total :
    (proc : Procfs) (pid fd : ℕ) (s : AppState)
    → (resolve_fd_path proc pid fd s).1.total_events ≡ s.total_events
unfolding resolve_fd_path
resolve_fd_path-total proc pid fd s = ground (
  arith,
  note_resolution-total (Fd.resolve_existing proc pid fd s.fd_cache).0
      (record s { fd_cache = (Fd.resolve_existing proc pid fd s.fd_cache).1 }),
)

record_io_group-total :
    (proc : Procfs) (g : IoGroup) (s : AppState)
    → (record_io_group proc g s).total_events ≡ s.total_events
unfolding record_io_group record_group_at resolve_container
record_io_group-total proc g s = ground (arith, resolve_fd_path-total proc g.key.pid g.key.fd s)

ingest_open-total :
    (proc : Procfs) (pid fd : ℕ) (dirfd : ℤ) (path : Bytes) (flags : ℕ) (s : AppState)
    → (ingest_open proc pid fd dirfd path flags s).total_events ≡ s.total_events
unfolding ingest_open ingest_opened decorate_path record_process resolve_container
ingest_open-total proc pid fd dirfd path flags s = ground (
  arith,
  note_resolution-total (Fd.resolve proc pid fd dirfd path flags s.fd_cache).0
      (record s { fd_cache = (Fd.resolve proc pid fd dirfd path flags s.fd_cache).1 }),
)

ingest_close-total :
    (proc : Procfs) (pid fd : ℕ) (s : AppState)
    → (ingest_close proc pid fd s).total_events ≡ s.total_events
unfolding ingest_close count_close decorate_path record_process resolve_container
ingest_close-total proc pid fd s = ground arith

ingest_dup-total :
    (proc : Procfs) (pid old new : ℕ) (s : AppState)
    → (ingest_dup proc pid old new s).total_events ≡ s.total_events
unfolding ingest_dup
ingest_dup-total proc pid old new s = ground (arith, resolve_fd_path-total proc pid old s)

-- A result, if there is one, has counted `n` events.
abbrev Counts : ℕ → Option (AppState × Batch) → Type 0
Counts n none = Unit {0}
Counts n (some (s, b)) = s.total_events ≡ n

Counts-bind :
    (n : ℕ) (m : Option (AppState × Batch)) (f : AppState × Batch → Option (AppState × Batch))
    → Counts n m
    → ((sb : AppState × Batch) → sb.0.total_events ≡ n → Counts n (f sb))
    → Counts n (m >>= f)
Counts-bind n none f h k = tt
Counts-bind n (some sb) f h k = k sb h

flush_io_key-total :
    (proc : Procfs) (key : IoKey) (s : AppState) (b : Batch)
    → Counts s.total_events (flush_io_key proc key (s, b))
unfolding flush_io_key
flush_io_key-total proc key s b = from (get key b.positions)
  where
    taken :
        (i : ℕ) (g : Option IoGroup)
        → Counts s.total_events (elim g [
          | none ↦ none
          | some g ↦ some (
            record_io_group proc g s,
            record { groups = set b.groups i none; positions = remove key b.positions },
          )
        ])
    taken i none = tt
    taken i (some g) = record_io_group-total proc g s

    from :
        (o : Option ℕ)
        → Counts s.total_events (elim o [
          | none ↦ some (s, b)
          | some i ↦ elim (group_at b i) [
            | none ↦ none
            | some g ↦ some (
              record_io_group proc g s,
              record { groups = set b.groups i none; positions = remove key b.positions },
            )
          ]
        ])
    from none = refl
    from (some i) = taken i (group_at b i)

flush_keys-total :
    (proc : Procfs) (ks : List IoKey) (s : AppState) (b : Batch)
    → Counts s.total_events (flush_keys proc ks (s, b))
unfolding flush_keys
flush_keys-total proc [] s b = refl
flush_keys-total proc (key ∷ rest) s b =
    Counts-bind s.total_events (flush_io_key proc key (s, b)) (flush_keys proc rest)
      (flush_io_key-total proc key s b) (λ sb e. rw (sym e) (flush_keys-total proc rest sb.0 sb.1))

flush_lifecycle_groups-total :
    (proc : Procfs) (event : BpfEvent) (s : AppState) (b : Batch)
    → Counts s.total_events (flush_lifecycle_groups proc event (s, b))
unfolding flush_lifecycle_groups
flush_lifecycle_groups-total proc (open_event pid tid fd dirfd path path_flags emitted) s b =
    flush_keys-total proc (fd_keys pid fd) s b
flush_lifecycle_groups-total proc (close_event pid tid fd emitted) s b =
    flush_keys-total proc (fd_keys pid fd) s b
flush_lifecycle_groups-total proc (dup_event pid tid old_fd new_fd emitted) s b =
    Counts-bind s.total_events (flush_keys proc (fd_keys pid old_fd) (s, b)) _
      (flush_keys-total proc (fd_keys pid old_fd) s b)
      (λ sb e. elim (Bool-cases (nat_beq old_fd new_fd)) [
        | inl same ↦ rw same e
        | inr other ↦ rw other (rw (sym e) (flush_keys-total proc (fd_keys pid new_fd) sb.0 sb.1))
      ])
flush_lifecycle_groups-total proc (close_range_event pid tid first last flags emitted) s b =
    elim (Bool-cases (is_cloexec flags)) [
      | inl e ↦ rw e refl
      | inr e ↦ rw e (flush_keys-total proc _ s b)
    ]
flush_lifecycle_groups-total proc (process_exec pid emitted) s b = flush_keys-total proc _ s b
flush_lifecycle_groups-total proc (process_exit pid emitted) s b = flush_keys-total proc _ s b
flush_lifecycle_groups-total proc (read_event pid tid fd bytes result latency emitted) s b = tt
flush_lifecycle_groups-total proc (write_event pid tid fd bytes result latency emitted) s b = tt

ingest_lifecycle-total :
    (proc : Procfs) (event : BpfEvent) (s : AppState) (b : Batch)
    → Counts s.total_events (ingest_lifecycle proc event s >>= λ s'. some (s', b))
unfolding ingest_lifecycle forget_process
ingest_lifecycle-total proc (open_event pid tid fd dirfd path path_flags emitted) s b =
    ingest_open-total proc pid fd dirfd path path_flags s
ingest_lifecycle-total proc (close_event pid tid fd emitted) s b = ingest_close-total proc pid fd s
ingest_lifecycle-total proc (dup_event pid tid old_fd new_fd emitted) s b =
    ingest_dup-total proc pid old_fd new_fd s
ingest_lifecycle-total proc (close_range_event pid tid first last flags emitted) s b = refl
ingest_lifecycle-total proc (process_exec pid emitted) s b = refl
ingest_lifecycle-total proc (process_exit pid emitted) s b = refl
ingest_lifecycle-total proc (read_event pid tid fd bytes result latency emitted) s b = tt
ingest_lifecycle-total proc (write_event pid tid fd bytes result latency emitted) s b = tt

ingest_barrier-total :
    (proc : Procfs) (event : BpfEvent) (s : AppState) (b : Batch)
    → Counts s.total_events (ingest_barrier proc event (s, b))
unfolding ingest_barrier
ingest_barrier-total proc event s b =
    Counts-bind s.total_events (flush_lifecycle_groups proc event (s, b)) _
      (flush_lifecycle_groups-total proc event s b)
      (λ sb e. rw (sym e) (ingest_lifecycle-total proc event sb.0 sb.1))

record_io_outcome-total :
    (result : ℤ) (s : AppState) → (record_io_outcome result s).total_events ≡ s.total_events
unfolding record_io_outcome
record_io_outcome-total result s = ground arith

ingest_io-total :
    (observed_at : ℕ) (op : OpKind) (pid fd bytes : ℕ) (result : ℤ) (latency : ℕ) (s : AppState)
    (b : Batch)
    → Counts s.total_events (ingest_io observed_at op pid fd bytes result latency (s, b))
unfolding ingest_io
ingest_io-total observed_at op pid fd bytes result latency s b =
    elim (Bool-cases (is_negative result || int_is_zero result)) [
      | inl e ↦ rw e (record_io_outcome-total result s)
      | inr e ↦ rw e (
          joined (
            accumulate_io_group (record { pid = pid; fd = fd; op = op }) bytes latency observed_at
              b))
    ]
  where
    joined :
        (o : Option Batch)
        → Counts s.total_events
            (elim o [ none ↦ none | some b' ↦ some (record_io_outcome result s, b') ])
    joined none = tt
    joined (some b') = record_io_outcome-total result s

ingest_event-total :
    (observed_at : ℕ) (proc : Procfs) (event : BpfEvent) (s : AppState) (b : Batch)
    → Counts s.total_events (ingest_event observed_at proc event (s, b))
unfolding ingest_event
ingest_event-total observed_at proc (read_event pid tid fd bytes result latency emitted) s b =
    ingest_io-total observed_at read_op pid fd bytes result latency s b
ingest_event-total observed_at proc (write_event pid tid fd bytes result latency emitted) s b =
    ingest_io-total observed_at write_op pid fd bytes result latency s b
ingest_event-total observed_at proc event s b = ingest_barrier-total proc event s b

ingest_events-total :
    (observed_at : ℕ) (events : List (Procfs × BpfEvent)) (s : AppState) (b : Batch)
    → Counts s.total_events (ingest_events observed_at events (s, b))
unfolding ingest_events
ingest_events-total observed_at [] s b = refl
ingest_events-total observed_at ((proc, event) ∷ rest) s b =
    Counts-bind s.total_events (ingest_event observed_at proc event (s, b))
      (ingest_events observed_at rest) (ingest_event-total observed_at proc event s b)
      (λ sb e. rw (sym e) (ingest_events-total observed_at rest sb.0 sb.1))

flush_io_groups-total :
    (proc : Procfs) (gs : List (Option IoGroup)) (s : AppState)
    → (flush_io_groups proc gs s).total_events ≡ s.total_events
unfolding flush_io_groups
flush_io_groups-total proc [] s = refl
flush_io_groups-total proc (none ∷ gs) s = flush_io_groups-total proc gs s
flush_io_groups-total proc (some g ∷ gs) s =
    flush_io_groups-total proc gs (record_io_group proc g s) ∙ record_io_group-total proc g s

-- An ingested batch adds as many events as it holds.
pub total_events-ingest :
    (observed_at : ℕ) (proc : Procfs) (events : List (Procfs × BpfEvent)) (s s' : AppState)
    → ingest observed_at proc events s ≡ some s'
    → s'.total_events ≡ saturating_add s.total_events (min (length events) u64_max)
unfolding ingest
total_events-ingest observed_at proc events s s' h =
    flushed (ingest_events observed_at events (counted, empty_batch))
      (ingest_events-total observed_at events counted empty_batch) h
  where
    counted : AppState
    counted = record s {
      total_events = saturating_add s.total_events (min (length events) u64_max);
    }

    flushed :
        (m : Option (AppState × Batch))
        → Counts counted.total_events m
        → (m >>= λ sb. some (flush_io_groups proc sb.1.groups sb.0)) ≡ some s'
        → s'.total_events ≡ counted.total_events
    flushed none k e = cc
    flushed (some (t, b)) k e = ground (arith, flush_io_groups-total proc b.groups t)

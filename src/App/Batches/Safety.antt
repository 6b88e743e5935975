-- ===== src/App/Batches/Safety.antt =====
-- `ingest` never panics: no `expect` of a group fails and no `unreachable!` is reached.
use ncda.Base.{
  ℕ, ◌≡◌, ◌≢◌, refl, Bool, true, false, Option, none, some, List, [], ◌∷◌, nat_beq, Bool-cases, inl,
  inr, if◌then◌else◌, ℤ, is_negative, int_is_zero, ◌||◌, ◌&&◌, leb,
}
use ncda.Base.HashMap.{keys}
use ncda.Procfs.{Procfs}
use ncda.Stats.{OpKind, read_op, write_op}
use ncda.Fd.{is_cloexec}
use ncda.Wire.{
  BpfEvent, open_event, read_event, write_event, close_event, dup_event, close_range_event,
  process_exec, process_exit,
}
use ncda.App.{AppState, ingest_lifecycle, record_io_outcome}
use ncda.App.Groups.{IoKey, Batch, accumulate_io_group}
use ncda.App.Batches.{
  ◌>>=◌, flush_io_key, flush_keys, fd_keys, flush_fd_groups, filter_keys, flush_lifecycle_groups,
  ingest_io, ingest_barrier, ingest_event, ingest_events, ingest,
}
use ncda.App.Batches.Active.{
  IsActive, Succeeds, empty_batch-IsActive, accumulate_io_group-IsActive, flush_io_key-IsActive,
}

abbrev Live : AppState × Batch → Type 0
Live sb = IsActive sb.1

Succeeds-bind :
    {A B : Type 0} (P : A → Type 0) (Q : B → Type 0) (m : Option A) (f : A → Option B)
    → Succeeds P m
    → ((a : A) → P a → Succeeds Q (f a))
    → Succeeds Q (m >>= f)
Succeeds-bind P Q none f h k = elim h [ ]
Succeeds-bind P Q (some a) f h k = k a h

flush_keys-Live :
    (proc : Procfs) (ks : List IoKey) (sb : AppState × Batch)
    → Live sb
    → Succeeds Live (flush_keys proc ks sb)
unfolding flush_keys
flush_keys-Live proc [] sb h = h
flush_keys-Live proc (k ∷ ks) sb h =
    Succeeds-bind Live Live (flush_io_key proc k sb) (flush_keys proc ks)
      (flush_io_key-IsActive proc k sb.0 sb.1 h) (flush_keys-Live proc ks)

-- The events between which I/O is coalesced.
abbrev is_lifecycle : BpfEvent → Bool
is_lifecycle (read_event pid tid fd bytes result latency emitted) = false
is_lifecycle (write_event pid tid fd bytes result latency emitted) = false
is_lifecycle _ = true

flush_lifecycle_groups-Live :
    (proc : Procfs) (event : BpfEvent) (sb : AppState × Batch)
    → is_lifecycle event ≡ true
    → Live sb
    → Succeeds Live (flush_lifecycle_groups proc event sb)
unfolding flush_lifecycle_groups
flush_lifecycle_groups-Live proc (open_event pid tid fd dirfd path flags emitted) sb l h =
    flush_keys-Live proc (fd_keys pid fd) sb h
flush_lifecycle_groups-Live proc (close_event pid tid fd emitted) sb l h =
    flush_keys-Live proc (fd_keys pid fd) sb h
flush_lifecycle_groups-Live proc (dup_event pid tid old_fd new_fd emitted) sb l h =
    Succeeds-bind Live Live (flush_fd_groups proc pid old_fd sb)
      (λ sb'. if nat_beq old_fd new_fd then some sb' else flush_fd_groups proc pid new_fd sb')
      (flush_keys-Live proc (fd_keys pid old_fd) sb h)
      (λ sb' h'. elim (Bool-cases (nat_beq old_fd new_fd)) [
        | inl e ↦ rw e h'
        | inr e ↦ rw e (flush_keys-Live proc (fd_keys pid new_fd) sb' h')
      ])
flush_lifecycle_groups-Live proc (close_range_event pid tid first last flags emitted) (s, b) l h =
    elim (Bool-cases (is_cloexec flags)) [
      | inl e ↦ rw e h
      | inr e ↦ rw e (
          flush_keys-Live proc
            (filter_keys (λ k. nat_beq k.pid pid && leb first k.fd && leb k.fd last)
              (keys b.positions))
            (s, b) h)
    ]
flush_lifecycle_groups-Live proc (process_exec pid emitted) (s, b) l h =
    flush_keys-Live proc (filter_keys (λ k. nat_beq k.pid pid) (keys b.positions)) (s, b) h
flush_lifecycle_groups-Live proc (process_exit pid emitted) (s, b) l h =
    flush_keys-Live proc (filter_keys (λ k. nat_beq k.pid pid) (keys b.positions)) (s, b) h
flush_lifecycle_groups-Live proc (read_event pid tid fd bytes result latency emitted) sb l h = cc
flush_lifecycle_groups-Live proc (write_event pid tid fd bytes result latency emitted) sb l h = cc

ingest_lifecycle-Succeeds :
    (proc : Procfs) (event : BpfEvent) (s : AppState)
    → is_lifecycle event ≡ true
    → Succeeds (λ s'. Unit) (ingest_lifecycle proc event s)
unfolding ingest_lifecycle
ingest_lifecycle-Succeeds proc (read_event pid tid fd bytes result latency emitted) s l = cc
ingest_lifecycle-Succeeds proc (write_event pid tid fd bytes result latency emitted) s l = cc
ingest_lifecycle-Succeeds proc _ s l = tt

ingest_barrier-Live :
    (proc : Procfs) (event : BpfEvent) (sb : AppState × Batch)
    → is_lifecycle event ≡ true
    → Live sb
    → Succeeds Live (ingest_barrier proc event sb)
unfolding ingest_barrier
ingest_barrier-Live proc event sb l h =
    Succeeds-bind Live Live (flush_lifecycle_groups proc event sb)
      (λ sb'. ingest_lifecycle proc event sb'.0 >>= λ s. some (s, sb'.1))
      (flush_lifecycle_groups-Live proc event sb l h)
      (λ sb' h'.
        Succeeds-bind (λ s. Unit) Live (ingest_lifecycle proc event sb'.0) (λ s. some (s, sb'.1))
          (ingest_lifecycle-Succeeds proc event sb'.0 l) (λ s u. h'))

ingest_io-Live :
    (observed_at : ℕ) (op : OpKind) (pid fd bytes : ℕ) (result : ℤ) (latency : ℕ)
    (sb : AppState × Batch)
    → Live sb
    → Succeeds Live (ingest_io observed_at op pid fd bytes result latency sb)
unfolding ingest_io
ingest_io-Live observed_at op pid fd bytes result latency (s, b) h =
    elim (Bool-cases (is_negative result || int_is_zero result)) [
      | inl e ↦ rw e h
      | inr e ↦ rw e (
          joined
            (accumulate_io_group (record { pid = pid; fd = fd; op = op }) bytes latency observed_at
              b)
            (accumulate_io_group-IsActive (record { pid = pid; fd = fd; op = op }) bytes latency
              observed_at b h))
    ]
  where
    joined :
        (o : Option Batch)
        → Succeeds IsActive o
        → Succeeds Live (elim o [ none ↦ none | some b' ↦ some (record_io_outcome result s, b') ])
    joined none k = k
    joined (some b') k = k

ingest_event-Live :
    (observed_at : ℕ) (proc : Procfs) (event : BpfEvent) (sb : AppState × Batch)
    → Live sb
    → Succeeds Live (ingest_event observed_at proc event sb)
unfolding ingest_event
ingest_event-Live observed_at proc (read_event pid tid fd bytes result latency emitted) sb h =
    ingest_io-Live observed_at read_op pid fd bytes result latency sb h
ingest_event-Live observed_at proc (write_event pid tid fd bytes result latency emitted) sb h =
    ingest_io-Live observed_at write_op pid fd bytes result latency sb h
ingest_event-Live observed_at proc event sb h = ingest_barrier-Live proc event sb refl h

ingest_events-Live :
    (observed_at : ℕ) (events : List (Procfs × BpfEvent)) (sb : AppState × Batch)
    → Live sb
    → Succeeds Live (ingest_events observed_at events sb)
unfolding ingest_events
ingest_events-Live observed_at [] sb h = h
ingest_events-Live observed_at ((proc, event) ∷ rest) sb h =
    Succeeds-bind Live Live (ingest_event observed_at proc event sb)
      (ingest_events observed_at rest) (ingest_event-Live observed_at proc event sb h)
      (ingest_events-Live observed_at rest)

not_none :
    {A B : Type 0} (P : A → Type 0) (m : Option A) (f : A → B)
    → Succeeds P m
    → (m >>= λ a. some (f a)) ≢ none
not_none P none f h = elim h [ ]
not_none P (some a) f h = λ e. cc

-- Whatever events a batch holds, in whatever state it comes and whatever procfs reads, ingesting it
-- does not panic: every indexed group is live, and no read or write is taken for a lifecycle event.
pub ingest-ne-none :
    (observed_at : ℕ) (proc : Procfs) (events : List (Procfs × BpfEvent)) (s : AppState)
    → ingest observed_at proc events s ≢ none
unfolding ingest
ingest-ne-none observed_at proc events s =
    not_none Live (ingest_events observed_at events _) _
      (ingest_events-Live observed_at events _ empty_batch-IsActive)

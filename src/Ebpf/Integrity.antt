-- ===== src/Ebpf/Integrity.antt =====
-- What holds of the maps of ncda-ebpf/src/main.rs between two hooks.
mod Enter
mod Exit
pub mod Runs
use ncda.Base.{
  ℕ, ◌+◌, ◌-◌, ◌/◌, ◌%◌, ◌^◌, ◌≤◌, ◌<◌, ◌≡◌, ◌⊎◌, inl, inr, refl, subst, Bool, true, false, not,
  ◌&&◌, ◌||◌, Option, none, some, List, [], ◌∷◌, ◌++◌, Bytes, length, min, ltb, nat_beq, nat_eq,
  is_some, All, if◌then◌else◌, ℤ, pos, arith, Bool-cases, Option-cases, PartialEq, unwrap_or,
  int_is_zero, int_beq, is_negative,
}
use ncda.Base.HashMap.{HashMap, get, insert, remove, retain}
use ncda.Wire.{
  signed, event_read, event_write, max_fname_len, event_process_exec, event_process_exit,
}
use ncda.Wire.Layout.{IsU32, IsU64, IsSigned}
use ncda.Ebpf.Syscalls.{Arch, io_kind, syscall_arg, native_syscall_abi, syscall_number}
use ncda.Ebpf.Counters.{
  CaptureStats, record_ring_drop, record_stash_failure, record_scratch_failure, record_io_entry,
  record_io_exit, record_compat_syscall,
}
use ncda.Ebpf.Store.{
  OpenArgs, RwArgs, FdArgs, RangeArgs, Maps, Context, count, output, as_i32, as_u32, empty_maps,
  pid_of, tid_of,
}
use ncda.Ebpf.Enter.{
  open_args, enter_open, enter_io, enter_close, enter_dup, enter_fcntl, enter_close_range,
}
use ncda.Ebpf.Exit.{
  exit_open, exit_io, exit_close, exit_dup, exit_close_range, clear_stashes, emit_process_event,
  emit_leader_process_event,
}
use ncda.Ebpf.Records.{
  Readable, IsContext, IsName, IsRw, IsOpen, open-Readable, io-Readable, close-Readable,
  dup-Readable, range-Readable, exec-Readable, exit-Readable,
}
use ncda.Ebpf.{
  Hook, enter, exit, exec, exit_legacy, exit_group, taskstats, run_hook, run_hooks, sys_enter,
  sys_exit, enter_other, exit_other, leave_open, leave_io, leave_close, leave_dup,
  leave_close_range, sched_process_exec, sched_process_exit_legacy, sched_process_exit_group,
  taskstats_process_exit, is_open, is_dup,
}

-- Every value of a map.
abbrev pub Values : {V : Type 0} → (V → Type 0) → HashMap ℕ V → Type 0
Values P [] = Unit
Values P ((k, v) ∷ m) = P v × Values P m

module _ {V : Type 0} (P : V → Type 0) where
  pub Values-insert : (k : ℕ) (v : V) (m : HashMap ℕ V) → P v → Values P m → Values P (insert k v m)
  Values-insert k v [] h hs = (h, tt)
  Values-insert k v ((j, w) ∷ m) h (hw, hs) = elim (Bool-cases (nat_beq j k)) [
    | inl e ↦ rw e (h, hs)
    | inr e ↦ rw e (hw, Values-insert k v m h hs)
  ]

  pub Values-retain : (p : ℕ → Bool) (m : HashMap ℕ V) → Values P m → Values P (retain p m)
  Values-retain p [] hs = tt
  Values-retain p ((j, w) ∷ m) (hw, hs) = elim (Bool-cases (p j)) [
    | inl e ↦ rw e (hw, Values-retain p m hs)
    | inr e ↦ rw e (Values-retain p m hs)
  ]

  pub Values-remove : (k : ℕ) (m : HashMap ℕ V) → Values P m → Values P (remove k m)
  Values-remove k m hs = Values-retain (λ j. not (nat_beq j k)) m hs

  pub Values-get : (k : ℕ) (m : HashMap ℕ V) (v : V) → Values P m → get k m ≡ some v → P v
  Values-get k [] v hs e = cc
  Values-get k ((j, w) ∷ m) v (hw, hs) e = elim (Bool-cases (nat_beq j k)) [
    | inl t ↦ let same : w ≡ v = ground (arith, t, e) in subst P same hw
    | inr t ↦ Values-get k m v hs (ground (arith, t, e))
  ]

pub record IsRange (args : RangeArgs) : Type 0 where
  pub first_fd : IsU32 args.first_fd
  pub last_fd : IsU32 args.last_fd
  pub flags : IsU32 args.flags

pub record IsIntact (m : Maps) : Type 0 where
  pub events : All Readable m.events
  pub open_stash : Values IsOpen m.open_stash
  pub io_stash : Values IsRw m.io_stash
  pub close_stash : Values (λ args. IsU32 args.fd) m.close_stash
  pub dup_stash : Values (λ args. IsU32 args.fd) m.dup_stash
  pub range_stash : Values IsRange m.range_stash

All-append_one :
    (bytes : Bytes) (es : List Bytes)
    → All Readable es
    → Readable bytes
    → All Readable (es ++ bytes ∷ [])
All-append_one bytes [] h r = (r, tt)
All-append_one bytes (e ∷ es) (he, h) r = (he, All-append_one bytes es h r)

pub count-IsIntact :
    (ctx : Context) (f : CaptureStats → CaptureStats) (m : Maps)
    → IsIntact m
    → IsIntact (count ctx f m)
count-IsIntact ctx f m h = record {
  events = h.events;
  open_stash = h.open_stash;
  io_stash = h.io_stash;
  close_stash = h.close_stash;
  dup_stash = h.dup_stash;
  range_stash = h.range_stash;
}

pub output-IsIntact :
    (ctx : Context) (bytes : Bytes) (m : Maps)
    → IsIntact m
    → Readable bytes
    → IsIntact (output ctx bytes m)
unfolding output
output-IsIntact ctx bytes m h r = elim (Bool-cases ctx.outputs) [
  | inl e ↦ rw e (record {
    events = All-append_one bytes m.events h.events r;
    open_stash = h.open_stash;
    io_stash = h.io_stash;
    close_stash = h.close_stash;
    dup_stash = h.dup_stash;
    range_stash = h.range_stash;
  })
  | inr e ↦ rw e (count-IsIntact ctx record_ring_drop m h)
]

pub either : (b : Bool) (m m' : Maps) → IsIntact m → IsIntact m' → IsIntact (if b then m else m')
either true m m' h k = h
either false m m' h k = k

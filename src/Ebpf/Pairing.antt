-- ===== src/Ebpf/Pairing.antt =====
-- Entries and exits of reads and writes in ncda-ebpf/src/main.rs, paired through `IO_STASH`.
mod Keeps
use ncda.Base.{
  ℕ, ◌+◌, ◌-◌, ◌/◌, ◌%◌, ◌^◌, ◌≤◌, ◌<◌, ◌≡◌, ◌≢◌, ◌∙◌, ap, sym, negsuc, ◌⊎◌, inl, inr, refl, subst,
  Bool, true, false, not, ◌&&◌, ◌||◌, Option, none, some, List, [], ◌∷◌, ◌++◌, Bytes, length, min,
  ltb, nat_beq, nat_beq_iff, nat_eq, is_some, All, if◌then◌else◌, ℤ, pos, arith, Bool-cases,
  Option-cases, PartialEq, unwrap_or, int_is_zero, int_beq, is_negative,
}
use ncda.Base.HashMap.{HashMap, get, insert, remove, get-insert, get-remove}
use ncda.Wire.{
  signed, event_read, event_write, max_fname_len, event_process_exec, event_process_exit,
}
use ncda.Wire.Layout.{IsU32, IsU64, IsSigned}
use ncda.Ebpf.Syscalls.{
  Target, x86_64, aarch64, arch_of, Arch, io_kind, syscall_arg, native_syscall_abi, syscall_number,
}
use ncda.Ebpf.Counters.{
  change_at, CaptureStats, record_ring_drop, record_stash_failure, record_scratch_failure,
  record_io_entry, record_io_exit, record_compat_syscall,
}
use ncda.Ebpf.Store.{
  OpenArgs, RwArgs, FdArgs, RangeArgs, Maps, Context, count, output, as_i32, as_u32, empty_maps,
  pid_of, tid_of,
}
use ncda.Ebpf.Enter.{
  open_args, enter_open, enter_io, enter_close, enter_dup, enter_fcntl, enter_close_range,
}
use ncda.Ebpf.Exit.{
  exit_open, exit_io, exit_close, exit_dup, exit_close_range, clear_stashes, emit_process_event,
  emit_leader_process_event,
}
use ncda.Ebpf.Records.{
  Readable, IsContext, IsName, IsRw, IsOpen, open-Readable, io-Readable, close-Readable,
  dup-Readable, range-Readable, exec-Readable, exit-Readable,
}
use ncda.Ebpf.{
  Hook, enter, exit, exec, exit_legacy, exit_group, taskstats, run_hook, run_hooks, sys_enter,
  sys_exit, enter_other, exit_other, leave_open, leave_io, leave_close, leave_dup,
  leave_close_range, sched_process_exec, sched_process_exit_legacy, sched_process_exit_group,
  taskstats_process_exit, is_open, is_dup,
}
use ncda.Wire.Layout.{io_bytes}
use ncda.Ebpf.Pairing.Keeps.{stashed, IsOther, hooks_keep}

-- Reads and writes are no opens.
io_kind-is_open :
    (tgt : Target) (syscall : ℤ) (kind : ℕ)
    → io_kind (arch_of tgt) syscall ≡ some kind
    → is_open (arch_of tgt) syscall ≡ false
unfolding io_kind
io_kind-is_open x86_64 (pos n) kind h = ground (arith, h, nat_beq_iff n)
io_kind-is_open x86_64 (negsuc n) kind h = ground (arith, h)
io_kind-is_open aarch64 (pos n) kind h = ground (arith, h, nat_beq_iff n)
io_kind-is_open aarch64 (negsuc n) kind h = ground (arith, h)

sys_enter-io :
    (tgt : Target) (ctx : Context) (kind : ℕ) (m : Maps)
    → native_syscall_abi tgt ctx.registers ctx.syscall ≡ true
    → io_kind (arch_of tgt) ctx.syscall ≡ some kind
    → sys_enter (arch_of tgt) ctx m ≡ enter_io ctx kind m
unfolding sys_enter
sys_enter-io x86_64 ctx kind m h k = ground (arith, h, k, io_kind-is_open x86_64 ctx.syscall kind k)
sys_enter-io aarch64 ctx kind m h k =
    ground (arith, h, k, io_kind-is_open aarch64 ctx.syscall kind k)

leave_io-stashed :
    (ctx : Context) (args : RwArgs) (m : Maps)
    → get ctx.pid_tgid m.io_stash ≡ some args
    → leave_io ctx m ≡ exit_io ctx args (record m { io_stash = remove ctx.pid_tgid m.io_stash })
unfolding leave_io
leave_io-stashed ctx args m h = ground (arith, h)

-- What the entry stashes.
abbrev rw_args : Context → ℕ → RwArgs
rw_args ctx kind = record { ts = ctx.now; fd = as_u32 (syscall_arg ctx.registers 0); kind = kind }

enter_io-stash :
    (ctx : Context) (kind : ℕ) (m : Maps)
    → ctx.stashes ≡ true
    → stashed ctx.pid_tgid (enter_io ctx kind m) ≡ some (rw_args ctx kind)
unfolding enter_io
enter_io-stash ctx kind m h =
    let args = rw_args ctx kind in
    ground (
      arith,
      h,
      nat_beq_iff ctx.pid_tgid ctx.pid_tgid,
      get-insert ctx.pid_tgid ctx.pid_tgid args m.io_stash,
    )

sys_exit-io :
    (tgt : Target) (ctx : Context) (kind : ℕ) (m : Maps)
    → native_syscall_abi tgt ctx.registers (syscall_number tgt ctx.registers) ≡ true
    → io_kind (arch_of tgt) (syscall_number tgt ctx.registers) ≡ some kind
    → sys_exit (arch_of tgt) ctx m ≡ leave_io ctx m
unfolding sys_exit
sys_exit-io x86_64 ctx kind m h k =
    ground (arith, h, k, io_kind-is_open x86_64 (syscall_number x86_64 ctx.registers) kind k)
sys_exit-io aarch64 ctx kind m h k =
    ground (arith, h, k, io_kind-is_open aarch64 (syscall_number aarch64 ctx.registers) kind k)

-- The maps after `entry` was entered and the hooks `between` ran.
abbrev pub after : Target → Context → List (Hook × Context) → Maps → Maps
after tgt entry between m = run_hooks (arch_of tgt) between (sys_enter (arch_of tgt) entry m)

stashed-after :
    (tgt : Target) (entry : Context) (kind : ℕ) (between : List (Hook × Context)) (m : Maps)
    → native_syscall_abi tgt entry.registers entry.syscall ≡ true
    → io_kind (arch_of tgt) entry.syscall ≡ some kind
    → entry.stashes ≡ true
    → All (IsOther entry.pid_tgid) between
    → stashed entry.pid_tgid (after tgt entry between m) ≡ some (rw_args entry kind)
stashed-after tgt entry kind between m native is_io stashes others =
    hooks_keep entry.pid_tgid (arch_of tgt) between (sys_enter (arch_of tgt) entry m) others
    ∙ ap (stashed entry.pid_tgid) (sys_enter-io tgt entry kind m native is_io)
    ∙ enter_io-stash entry kind m stashes

-- A return from a read or write with a stash entry: what the ring buffer, the counters and the
-- stash hold afterwards.
pub IsEmitted : Context → RwArgs → Maps → Maps → Type 0
IsEmitted ctx args m m' =
    (m'.events ≡ (
      if ctx.outputs
      then m.events
        ++ io_bytes args.kind (pid_of ctx.pid_tgid) (tid_of ctx.pid_tgid) args.fd ctx.result
            ((ctx.now + 2 ^ 64 - args.ts) % 2 ^ 64) ctx.now
          ∷ []
      else m.events))
    × (m'.capture_stats ≡ (
        if ctx.outputs
        then change_at ctx.cpu (record_io_exit args.kind) m.capture_stats
        else change_at ctx.cpu record_ring_drop
            (change_at ctx.cpu (record_io_exit args.kind) m.capture_stats)))
    × (stashed ctx.pid_tgid m' ≡ none)

exit_io-IsEmitted :
    (ctx : Context) (args : RwArgs) (m : Maps)
    → IsEmitted ctx args m
        (exit_io ctx args (record m { io_stash = remove ctx.pid_tgid m.io_stash }))
unfolding exit_io output IsEmitted
exit_io-IsEmitted ctx args m = (
  ground (arith),
  ground (arith),
  ground (
    arith,
    nat_beq_iff ctx.pid_tgid ctx.pid_tgid,
    get-remove ctx.pid_tgid ctx.pid_tgid m.io_stash,
  ),
)

-- For both architectures: a thread enters a native read or write that the program knows and its
-- entry is stashed, hooks of any other threads run, and the thread returns from a native read or
-- write. Then the return emits one record, of the entered kind, with the entered descriptor, the
-- result, the time since the entry and the time of the return; it counts the exit of that kind, and
-- the stash no longer has the thread's entry. When the ring buffer is full the record is missing
-- and the drop is counted.
pub io-pairing :
    (tgt : Target) (entry ctx : Context) (kind exit_kind : ℕ) (between : List (Hook × Context))
    (m : Maps)
    → native_syscall_abi tgt entry.registers entry.syscall ≡ true
    → io_kind (arch_of tgt) entry.syscall ≡ some kind
    → entry.stashes ≡ true
    → All (IsOther entry.pid_tgid) between
    → ctx.pid_tgid ≡ entry.pid_tgid
    → native_syscall_abi tgt ctx.registers (syscall_number tgt ctx.registers) ≡ true
    → io_kind (arch_of tgt) (syscall_number tgt ctx.registers) ≡ some exit_kind
    → IsEmitted ctx
        (rw_args entry kind)
        (after tgt entry between m)
        (sys_exit (arch_of tgt) ctx (after tgt entry between m))
io-pairing tgt entry ctx kind exit_kind between m native is_io stashes others same exit_native
      exit_io =
    let m' = after tgt entry between m in
    let args = rw_args entry kind in
    let found : stashed ctx.pid_tgid m' ≡ some args =
      ap (λ t. stashed t m') same
      ∙ stashed-after tgt entry kind between m native is_io stashes others in
    subst (IsEmitted ctx args m')
      (sym
        (sys_exit-io tgt ctx exit_kind m' exit_native exit_io ∙ leave_io-stashed ctx args m' found))
      (exit_io-IsEmitted ctx args m')

-- ===== src/Ebpf.antt =====
-- The eBPF program of ncda-ebpf/src/main.rs: a state machine over its maps, one function for each
-- hook. What the kernel's helpers answer while a hook runs comes as a `Context`.
pub mod Syscalls
pub mod Counters
pub mod Store
mod Enter
mod Exit
mod Records
pub mod Integrity
pub mod Pairing
mod Examples
use ncda.Base.{
  ℕ, zero, suc, ◌+◌, ◌-◌, ◌/◌, ◌%◌, ◌^◌, Bool, true, false, not, ◌&&◌, ◌||◌, Option, none, some,
  List, [], ◌∷◌, ◌++◌, Bytes, length, take, min, ltb, nat_beq, nat_eq, is_some, unwrap_or,
  if◌then◌else◌, ℤ, pos, negsuc, int_beq, int_is_zero, is_negative,
}
use ncda.Base.HashMap.{HashMap, get, insert, remove}
use ncda.Wire.{
  signed, max_fname_len, event_open, event_close, event_dup, event_close_range, event_process_exec,
  event_process_exit,
}
use ncda.Wire.Layout.{to_bytes, unsigned, zeros, io_bytes, fd_bytes, range_bytes, process_bytes}
use ncda.Ebpf.Syscalls.{Arch, Registers, syscall_arg, syscall_number, native_syscall_abi, io_kind}
use ncda.Ebpf.Counters.{
  CaptureStats, change_at, record_ring_drop, record_stash_failure, record_scratch_failure,
  record_compat_syscall, record_io_entry, record_io_exit,
}
use ncda.Ebpf.Store.{
  OpenArgs, RwArgs, FdArgs, RangeArgs, Maps, Context, count, pid_of, tid_of, as_u32, result_u32,
  as_i32, output,
}
use ncda.Ebpf.Enter.{enter_open, enter_io, enter_close, enter_dup, enter_fcntl, enter_close_range}
use ncda.Ebpf.Exit.{
  exit_open, exit_io, exit_close, exit_dup, exit_close_range, clear_stashes, emit_process_event,
  emit_leader_process_event,
}

abbrev pub is_open : Arch → ℤ → Bool
is_open arch syscall = int_beq syscall arch.openat || int_beq syscall arch.openat2

abbrev pub is_dup : Arch → ℤ → Bool
is_dup arch syscall =
    int_beq syscall arch.dup || int_beq syscall arch.dup2 || int_beq syscall arch.dup3

-- The branches of `sys_enter` from the test of a close on.
pub enter_other : Arch → Context → Maps → Maps
enter_other arch ctx m =
    if int_beq ctx.syscall arch.close
    then enter_close ctx m
    else if is_dup arch ctx.syscall
    then enter_dup ctx m
    else if int_beq ctx.syscall arch.fcntl
    then enter_fcntl ctx m
    else if int_beq ctx.syscall arch.close_range
    then enter_close_range ctx m
    else m

pub sys_enter : Arch → Context → Maps → Maps
sys_enter arch ctx m =
    if not (native_syscall_abi arch.target ctx.registers ctx.syscall)
    then count ctx record_compat_syscall m
    else if is_open arch ctx.syscall
    then enter_open ctx m
    else elim (io_kind arch ctx.syscall) [
      | some kind ↦ enter_io ctx kind m
      | none ↦ enter_other arch ctx m
    ]

-- The branches of `sys_exit`, one for each stash that may hold the thread's entry.
pub leave_open : Context → Maps → Maps
leave_open ctx m = elim (get ctx.pid_tgid m.open_stash) [
  | none ↦ m
  | some args ↦
      let m' = exit_open ctx args m in record m' { open_stash = remove ctx.pid_tgid m'.open_stash }
]

pub leave_io : Context → Maps → Maps
leave_io ctx m = elim (get ctx.pid_tgid m.io_stash) [
  | none ↦ m
  | some args ↦ exit_io ctx args (record m { io_stash = remove ctx.pid_tgid m.io_stash })
]

pub leave_close : Context → Maps → Maps
leave_close ctx m = elim (get ctx.pid_tgid m.close_stash) [
  | none ↦ m
  | some args ↦
      exit_close ctx args.fd (record m { close_stash = remove ctx.pid_tgid m.close_stash })
]

pub leave_dup : Context → Maps → Maps
leave_dup ctx m = elim (get ctx.pid_tgid m.dup_stash) [
  | none ↦ m
  | some args ↦ exit_dup ctx args.fd (record m { dup_stash = remove ctx.pid_tgid m.dup_stash })
]

pub leave_close_range : Context → Maps → Maps
leave_close_range ctx m = elim (get ctx.pid_tgid m.range_stash) [
  | none ↦ m
  | some args ↦
      exit_close_range ctx args (record m { range_stash = remove ctx.pid_tgid m.range_stash })
]

pub exit_other : Arch → ℤ → Context → Maps → Maps
exit_other arch syscall ctx m =
    if int_beq syscall arch.close
    then leave_close ctx m
    else if is_dup arch syscall || int_beq syscall arch.fcntl
    then leave_dup ctx m
    else if int_beq syscall arch.close_range
    then leave_close_range ctx m
    else m

pub sys_exit : Arch → Context → Maps → Maps
sys_exit arch ctx m =
    let syscall = syscall_number arch.target ctx.registers in
    if not (native_syscall_abi arch.target ctx.registers syscall)
    then m
    else if is_open arch syscall
    then leave_open ctx m
    else if is_some (io_kind arch syscall)
    then leave_io ctx m
    else exit_other arch syscall ctx m

-- The hooks of a process.
pub sched_process_exec : Context → Maps → Maps
sched_process_exec ctx m = emit_leader_process_event event_process_exec ctx m

pub sched_process_exit_legacy : Context → Maps → Maps
sched_process_exit_legacy ctx m = clear_stashes ctx.pid_tgid m

pub sched_process_exit_group : Context → Maps → Maps
sched_process_exit_group ctx m =
    let m' = clear_stashes ctx.pid_tgid m in
    if nat_beq ctx.group_dead 0 then m' else emit_process_event event_process_exit ctx m'

pub taskstats_process_exit : Context → Maps → Maps
taskstats_process_exit ctx m =
    if int_is_zero (unwrap_or ctx.taskstats_dead (pos 0))
    then m
    else emit_process_event event_process_exit ctx m

-- A hook that the kernel runs.
pub data Hook : Type 0 where
  enter exit exec exit_legacy exit_group taskstats : Hook

pub run_hook : Arch → Hook → Context → Maps → Maps
run_hook arch enter ctx m = sys_enter arch ctx m
run_hook arch exit ctx m = sys_exit arch ctx m
run_hook arch exec ctx m = sched_process_exec ctx m
run_hook arch exit_legacy ctx m = sched_process_exit_legacy ctx m
run_hook arch exit_group ctx m = sched_process_exit_group ctx m
run_hook arch taskstats ctx m = taskstats_process_exit ctx m

pub run_hooks : Arch → List (Hook × Context) → Maps → Maps
run_hooks arch [] m = m
run_hooks arch ((hook, ctx) ∷ rest) m = run_hooks arch rest (run_hook arch hook ctx m)

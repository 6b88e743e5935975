-- ===== src/Ebpf/Examples.antt =====
-- Runs of the eBPF program's hooks at concrete inputs.
use ncda.Base.{ℕ, ◌+◌, ◌*◌, ◌^◌, ◌≡◌, refl, true, none, some, List, [], ◌∷◌, All, arith, pos}
use ncda.Wire.{event_read, event_process_exec}
use ncda.Wire.Layout.{io_bytes, process_bytes}
use ncda.Ebpf.Syscalls.{
  x86_64, aarch64, arch_of, Registers, syscall_arg, syscall_number, native_syscall_abi, io_kind,
}
use ncda.Ebpf.Counters.{no_stats}
use ncda.Ebpf.Store.{Maps, Context, empty_maps, output}
use ncda.Ebpf.Enter.{enter_io}
use ncda.Ebpf.Exit.{exit_io, emit_leader_process_event}
use ncda.Ebpf.Records.{Readable, IsContext}
use ncda.Reader.Drain.{malformed}
use ncda.Ebpf.Integrity.Runs
use ncda.Ebpf.Pairing
use ncda.Ebpf.{
  Hook, enter, exit, exec, sys_enter, sys_exit, leave_io, exit_other, sched_process_exec, run_hook,
  run_hooks, enter_other,
}

program : Unit {0}
unfolding syscall_arg syscall_number native_syscall_abi io_kind output enter_io exit_io
    emit_leader_process_event sys_enter sys_exit leave_io sched_process_exec run_hook run_hooks
    enter_other exit_other
program = tt

abbrev reads_three : Registers
reads_three = record {
  status = some 0;
  pstate = some 0;
  number = some 0;
  arguments = λ (n : ℕ). some 3;
}

-- Thread 4243 of process 4242 reads from descriptor 3.
abbrev entry : Context
entry = record {
  cpu = 0;
  pid_tgid = 4242 * 2 ^ 32 + 4243;
  now = 100;
  registers = reads_three;
  syscall = pos 0;
  result = pos 0;
  filename = none;
  has_scratch = true;
  has_event_buf = true;
  stashes = true;
  outputs = true;
  group_dead = 0;
  taskstats_dead = none;
}

abbrev return : Context
return = record entry { now = 350; result = pos 512 }

-- Process 77 executes a program on another processor.
abbrev other : Context
other = record entry { cpu = 1; pid_tgid = 77 * 2 ^ 32 + 77; now = 120 }

abbrev start : Maps
start = empty_maps (no_stats ∷ no_stats ∷ [])

abbrev hooks : List (Hook × Context)
hooks = (enter, entry) ∷ (exec, other) ∷ (exit, return) ∷ []

hooks_example :
    (run_hooks (arch_of x86_64) hooks start).events
    ≡ process_bytes event_process_exec 77 120
      ∷ io_bytes event_read 4242 4243 3 (pos 512) 250 350
      ∷ []
unfolding program
hooks_example = refl

-- The same registers on the other architecture are of no read: its number is 63.
other_arch_example : (run_hooks (arch_of aarch64) hooks start).io_stash ≡ []
unfolding program
other_arch_example = refl

io-pairing_example :
    Pairing.IsEmitted return
      (record { ts = 100; fd = 3; kind = event_read })
      (Pairing.after x86_64 entry ((exec, other) ∷ []) start)
      (sys_exit (arch_of x86_64) return (Pairing.after x86_64 entry ((exec, other) ∷ []) start))
unfolding program
io-pairing_example =
    Pairing.io-pairing x86_64 entry return event_read event_read ((exec, other) ∷ []) start refl
      refl refl (omega arith, tt) refl refl refl

hooks-IsContext : All (λ (hook : Hook × Context). IsContext hook.1) hooks
hooks-IsContext =
    let entry' : IsContext entry = record {
      pid_tgid = omega arith;
      now = omega arith;
      result = omega arith;
      filename = tt;
    } in
    let other' : IsContext other = record {
      pid_tgid = omega arith;
      now = omega arith;
      result = omega arith;
      filename = tt;
    } in
    let return' : IsContext return = record {
      pid_tgid = omega arith;
      now = omega arith;
      result = omega arith;
      filename = tt;
    } in
    (entry', (other', (return', tt)))

run_hooks-Readable_example :
    All Readable (run_hooks (arch_of x86_64) hooks start).events
    × (malformed (run_hooks (arch_of x86_64) hooks start).events ≡ 0)
run_hooks-Readable_example =
    Runs.run_hooks-Readable (arch_of x86_64) hooks (no_stats ∷ no_stats ∷ []) hooks-IsContext

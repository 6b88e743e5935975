-- ===== src/Ebpf/Pairing/Keeps.antt =====
-- The hooks of one thread in ncda-ebpf/src/main.rs leave `IO_STASH` of another as it is.
use ncda.Base.{
  ℕ, ◌≡◌, ◌≢◌, ◌∙◌, refl, Bool, true, false, not, Option, none, some, List, [], ◌∷◌, ◌++◌, Bytes,
  nat_beq_iff, nat_eq, All, if◌then◌else◌, arith, is_negative,
}
use ncda.Base.HashMap.{get, remove, get-insert, get-remove}
use ncda.Ebpf.Syscalls.{Arch, io_kind, syscall_arg}
use ncda.Ebpf.Counters.{
  CaptureStats, record_ring_drop, record_stash_failure, record_scratch_failure,
  record_compat_syscall,
}
use ncda.Ebpf.Store.{OpenArgs, RwArgs, FdArgs, RangeArgs, Maps, Context, count, output, as_u32}
use ncda.Ebpf.Enter.{enter_open, enter_io, enter_close, enter_dup, enter_fcntl, enter_close_range}
use ncda.Ebpf.Exit.{
  exit_open, exit_io, exit_close, exit_dup, exit_close_range, clear_stashes, emit_process_event,
  emit_leader_process_event,
}
use ncda.Ebpf.{
  Hook, enter, exit, exec, exit_legacy, exit_group, taskstats, run_hook, run_hooks, sys_enter,
  sys_exit, enter_other, exit_other, leave_open, leave_io, leave_close, leave_dup,
  leave_close_range, sched_process_exec, sched_process_exit_legacy, sched_process_exit_group,
  taskstats_process_exit,
}

-- A hook of one thread leaves the stashed read or write of another.
module _ (t : ℕ) where
  abbrev pub stashed : Maps → Option RwArgs
  stashed m = get t m.io_stash

  record Keeps (n m : Maps) : Type 0 where
    same : stashed m ≡ stashed n

  branch : (b : Bool) (m m' n : Maps) → Keeps n m → Keeps n m' → Keeps n (if b then m else m')
  branch true m m' n h k = h
  branch false m m' n h k = k

  output-Keeps :
      (ctx : Context) (bytes : Bytes) (m n : Maps) → Keeps n m → Keeps n (output ctx bytes m)
  unfolding output
  output-Keeps ctx bytes m n h =
      branch ctx.outputs (record m { events = m.events ++ bytes ∷ [] })
        (count ctx record_ring_drop m) n (record { same = h.same }) (record { same = h.same })

  enter_io-Keeps :
      (ctx : Context) (kind : ℕ) (m : Maps) → ctx.pid_tgid ≢ t → Keeps m (enter_io ctx kind m)
  unfolding enter_io
  enter_io-Keeps ctx kind m h =
      let args : RwArgs = record {
        ts = ctx.now;
        fd = as_u32 (syscall_arg ctx.registers 0);
        kind = kind;
      } in
      branch ctx.stashes _ _ m
        (record {
          same =
              ground
                (arith, h, nat_beq_iff ctx.pid_tgid t, get-insert ctx.pid_tgid t args m.io_stash);
        })
        (record { same = refl })

  count-Keeps :
      (ctx : Context) (f : CaptureStats → CaptureStats) (m : Maps) → Keeps m (count ctx f m)
  count-Keeps ctx f m = record { same = refl }

  count_after :
      (ctx : Context) (f : CaptureStats → CaptureStats) (m n : Maps)
      → Keeps n m
      → Keeps n (count ctx f m)
  count_after ctx f m n h = record { same = h.same }

  none-Keeps : (m : Maps) → Keeps m m
  none-Keeps m = record { same = refl }

  enter_close-Keeps : (ctx : Context) (m : Maps) → Keeps m (enter_close ctx m)
  unfolding enter_close
  enter_close-Keeps ctx m =
      branch ctx.stashes _ _ m (record { same = refl }) (record { same = refl })

  enter_dup-Keeps : (ctx : Context) (m : Maps) → Keeps m (enter_dup ctx m)
  unfolding enter_dup
  enter_dup-Keeps ctx m = branch ctx.stashes _ _ m (record { same = refl }) (record { same = refl })

  enter_close_range-Keeps : (ctx : Context) (m : Maps) → Keeps m (enter_close_range ctx m)
  unfolding enter_close_range
  enter_close_range-Keeps ctx m =
      branch ctx.stashes _ _ m (record { same = refl }) (record { same = refl })

  enter_fcntl-Keeps : (ctx : Context) (m : Maps) → Keeps m (enter_fcntl ctx m)
  unfolding enter_fcntl
  enter_fcntl-Keeps ctx m = branch _ _ _ m (enter_dup-Keeps ctx m) (none-Keeps m)

  enter_open-Keeps : (ctx : Context) (m : Maps) → Keeps m (enter_open ctx m)
  unfolding enter_open
  enter_open-Keeps ctx m =
      branch (not ctx.has_scratch) _ _ m (count-Keeps ctx record_scratch_failure m)
        (branch ctx.stashes _ _ m (record { same = refl }) (count-Keeps ctx record_stash_failure m))

  enter_other-Keeps : (arch : Arch) (ctx : Context) (m : Maps) → Keeps m (enter_other arch ctx m)
  unfolding enter_other
  enter_other-Keeps arch ctx m = branch _ _ _ m (enter_close-Keeps ctx m) (
      branch _ _ _ m (enter_dup-Keeps ctx m) (
        branch _ _ _ m (enter_fcntl-Keeps ctx m)
          (branch _ _ _ m (enter_close_range-Keeps ctx m) (none-Keeps m))))

  enter-Keeps :
      (arch : Arch) (ctx : Context) (m : Maps) → ctx.pid_tgid ≢ t → Keeps m (sys_enter arch ctx m)
  unfolding sys_enter
  enter-Keeps arch ctx m h =
      branch _ _ _ m (count-Keeps ctx record_compat_syscall m)
        (branch _ _ _ m (enter_open-Keeps ctx m) (by_kind (io_kind arch ctx.syscall)))
    where
      by_kind :
          (o : Option ℕ)
          → Keeps m (elim o [ some kind ↦ enter_io ctx kind m | none ↦ enter_other arch ctx m ])
      by_kind none = enter_other-Keeps arch ctx m
      by_kind (some kind) = enter_io-Keeps ctx kind m h

  leave_io-Keeps : (ctx : Context) (m : Maps) → ctx.pid_tgid ≢ t → Keeps m (leave_io ctx m)
  unfolding leave_io exit_io
  leave_io-Keeps ctx m h = by_entry (get ctx.pid_tgid m.io_stash)
    where
      by_entry :
          (o : Option RwArgs)
          → Keeps m (elim o [
            | none ↦ m
            | some args ↦ exit_io ctx args (record m { io_stash = remove ctx.pid_tgid m.io_stash })
          ])
      by_entry none = (none-Keeps m)
      by_entry (some args) = output-Keeps ctx _ _ m (record {
        same = ground (arith, h, nat_beq_iff ctx.pid_tgid t, get-remove ctx.pid_tgid t m.io_stash);
      })

  exit_open-Keeps :
      (ctx : Context) (args : OpenArgs) (m n : Maps) → Keeps n m → Keeps n (exit_open ctx args m)
  unfolding exit_open
  exit_open-Keeps ctx args m n h = branch (is_negative ctx.result) m _ n h (
      branch (not ctx.has_event_buf) (count ctx record_scratch_failure m) _ n
        (count_after ctx record_scratch_failure m n h) (output-Keeps ctx _ m n h))

  exit_close-Keeps :
      (ctx : Context) (fd : ℕ) (m n : Maps) → Keeps n m → Keeps n (exit_close ctx fd m)
  unfolding exit_close
  exit_close-Keeps ctx fd m n h = branch _ m _ n h (output-Keeps ctx _ m n h)

  exit_dup-Keeps :
      (ctx : Context) (old_fd : ℕ) (m n : Maps) → Keeps n m → Keeps n (exit_dup ctx old_fd m)
  unfolding exit_dup
  exit_dup-Keeps ctx old_fd m n h = branch _ m _ n h (output-Keeps ctx _ m n h)

  exit_close_range-Keeps :
      (ctx : Context) (args : RangeArgs) (m n : Maps)
      → Keeps n m
      → Keeps n (exit_close_range ctx args m)
  unfolding exit_close_range
  exit_close_range-Keeps ctx args m n h = branch _ m _ n h (output-Keeps ctx _ m n h)

  leave_open-Keeps : (ctx : Context) (m : Maps) → Keeps m (leave_open ctx m)
  unfolding leave_open
  leave_open-Keeps ctx m = by_entry (get ctx.pid_tgid m.open_stash)
    where
      by_entry :
          (o : Option OpenArgs)
          → Keeps m (elim o [
            | none ↦ m
            | some args ↦
                let m' = exit_open ctx args m in
                record m' { open_stash = remove ctx.pid_tgid m'.open_stash }
          ])
      by_entry none = (none-Keeps m)
      by_entry (some args) = record { same = (exit_open-Keeps ctx args m m (none-Keeps m)).same }

  leave_close-Keeps : (ctx : Context) (m : Maps) → Keeps m (leave_close ctx m)
  unfolding leave_close
  leave_close-Keeps ctx m = by_entry (get ctx.pid_tgid m.close_stash)
    where
      by_entry :
          (o : Option FdArgs)
          → Keeps m (elim o [
            | none ↦ m
            | some args ↦
                exit_close ctx args.fd
                  (record m { close_stash = remove ctx.pid_tgid m.close_stash })
          ])
      by_entry none = (none-Keeps m)
      by_entry (some args) =
          exit_close-Keeps ctx args.fd
            (record m { close_stash = remove ctx.pid_tgid m.close_stash }) m
            (record { same = refl })

  leave_dup-Keeps : (ctx : Context) (m : Maps) → Keeps m (leave_dup ctx m)
  unfolding leave_dup
  leave_dup-Keeps ctx m = by_entry (get ctx.pid_tgid m.dup_stash)
    where
      by_entry :
          (o : Option FdArgs)
          → Keeps m (elim o [
            | none ↦ m
            | some args ↦
                exit_dup ctx args.fd (record m { dup_stash = remove ctx.pid_tgid m.dup_stash })
          ])
      by_entry none = (none-Keeps m)
      by_entry (some args) =
          exit_dup-Keeps ctx args.fd (record m { dup_stash = remove ctx.pid_tgid m.dup_stash }) m
            (record { same = refl })

  leave_range-Keeps : (ctx : Context) (m : Maps) → Keeps m (leave_close_range ctx m)
  unfolding leave_close_range
  leave_range-Keeps ctx m = by_entry (get ctx.pid_tgid m.range_stash)
    where
      by_entry :
          (o : Option RangeArgs)
          → Keeps m (elim o [
            | none ↦ m
            | some args ↦
                exit_close_range ctx args
                  (record m { range_stash = remove ctx.pid_tgid m.range_stash })
          ])
      by_entry none = (none-Keeps m)
      by_entry (some args) =
          exit_close_range-Keeps ctx args
            (record m { range_stash = remove ctx.pid_tgid m.range_stash }) m
            (record { same = refl })

  exit-Keeps :
      (arch : Arch) (ctx : Context) (m : Maps) → ctx.pid_tgid ≢ t → Keeps m (sys_exit arch ctx m)
  unfolding sys_exit exit_other
  exit-Keeps arch ctx m h = branch _ _ _ m (none-Keeps m) (
      branch _ _ _ m (leave_open-Keeps ctx m) (
        branch _ _ _ m (leave_io-Keeps ctx m h) (
          branch _ _ _ m (leave_close-Keeps ctx m) (
            branch _ _ _ m (leave_dup-Keeps ctx m)
              (branch _ _ _ m (leave_range-Keeps ctx m) (none-Keeps m))))))

  clear-Keeps :
      (ctx : Context) (m : Maps) → ctx.pid_tgid ≢ t → Keeps m (clear_stashes ctx.pid_tgid m)
  unfolding clear_stashes
  clear-Keeps ctx m h = record {
    same = ground (arith, h, nat_beq_iff ctx.pid_tgid t, get-remove ctx.pid_tgid t m.io_stash);
  }

  hook-Keeps :
      (arch : Arch) (hook : Hook) (ctx : Context) (m : Maps)
      → ctx.pid_tgid ≢ t
      → Keeps m (run_hook arch hook ctx m)
  unfolding run_hook sched_process_exec sched_process_exit_legacy sched_process_exit_group
      taskstats_process_exit emit_process_event emit_leader_process_event
  hook-Keeps arch enter ctx m h = enter-Keeps arch ctx m h
  hook-Keeps arch exit ctx m h = exit-Keeps arch ctx m h
  hook-Keeps arch exec ctx m h =
      branch _ _ _ m (none-Keeps m) (output-Keeps ctx _ m m (none-Keeps m))
  hook-Keeps arch exit_legacy ctx m h = clear-Keeps ctx m h
  hook-Keeps arch exit_group ctx m h =
      branch _ _ _ m (clear-Keeps ctx m h)
        (output-Keeps ctx _ (clear_stashes ctx.pid_tgid m) m (clear-Keeps ctx m h))
  hook-Keeps arch taskstats ctx m h =
      branch _ _ _ m (none-Keeps m) (output-Keeps ctx _ m m (none-Keeps m))

  abbrev pub IsOther : Hook × Context → Type 0
  IsOther hook = hook.1.pid_tgid ≢ t

  pub hooks_keep :
      (arch : Arch) (hooks : List (Hook × Context)) (m : Maps)
      → All IsOther hooks
      → stashed (run_hooks arch hooks m) ≡ stashed m
  unfolding run_hooks
  hooks_keep arch [] m h = refl
  hooks_keep arch ((hook, ctx) ∷ rest) m (h, hs) =
      hooks_keep arch rest (run_hook arch hook ctx m) hs ∙ (hook-Keeps arch hook ctx m h).same

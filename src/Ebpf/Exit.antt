-- ===== src/Ebpf/Exit.antt =====
-- What ncda-ebpf/src/main.rs emits when a system call returns, and at the events of a process.
use ncda.Base.{
  ℕ, zero, suc, ◌+◌, ◌-◌, ◌%◌, ◌^◌, Bool, not, [], ◌∷◌, ◌++◌, Bytes, nat_beq, nat_eq, if◌then◌else◌,
  ℤ, negsuc, int_beq, int_is_zero, is_negative,
}
use ncda.Base.HashMap.{remove}
use ncda.Wire.{max_fname_len, event_open, event_close}
use ncda.Wire.Layout.{to_bytes, unsigned, io_bytes, fd_bytes, range_bytes, process_bytes}
use ncda.Ebpf.Counters.{record_scratch_failure, record_io_exit}
use ncda.Ebpf.Store.{
  OpenArgs, RwArgs, RangeArgs, Maps, Context, count, pid_of, tid_of, result_u32, output,
}

-- `close_releases_fd` of ncda-common: -9 is `-LINUX_EBADF`.
abbrev linux_ebadf : ℤ
linux_ebadf = negsuc 8

unfoldable pub close_releases_fd : ℤ → Bool
close_releases_fd result = not (int_beq result linux_ebadf)

-- The loop of `exit_open` over the path's bytes.
unfoldable pub fname_from : ℕ → ℕ → Bytes → Bytes
fname_from zero fname_len fname = []
fname_from (suc n) zero fname = 0 ∷ fname_from n zero fname
fname_from (suc n) (suc fname_len) [] = 0 ∷ fname_from n fname_len []
fname_from (suc n) (suc fname_len) (b ∷ fname) = b ∷ fname_from n fname_len fname

-- `OpenEvent`, field by field
unfoldable pub open_event_bytes : ℕ → ℤ → ℕ → OpenArgs → Bytes
open_event_bytes pid_tgid result emitted_ns args =
    to_bytes 4 event_open
    ++ to_bytes 4 (pid_of pid_tgid)
    ++ to_bytes 4 (tid_of pid_tgid)
    ++ to_bytes 4 (result_u32 result)
    ++ to_bytes 2 args.fname_len
    ++ to_bytes 2 args.fname_flags
    ++ to_bytes 4 (unsigned (2 ^ 32) args.dirfd)
    ++ to_bytes 8 emitted_ns
    ++ fname_from max_fname_len args.fname_len args.fname

unfoldable pub exit_open : Context → OpenArgs → Maps → Maps
exit_open ctx args m =
    if is_negative ctx.result
    then m
    else if not ctx.has_event_buf
    then count ctx record_scratch_failure m
    else output ctx (open_event_bytes ctx.pid_tgid ctx.result ctx.now args) m

-- `emitted_ns - args.ts` wraps.
unfoldable pub exit_io : Context → RwArgs → Maps → Maps
exit_io ctx args m =
    output ctx
      (io_bytes args.kind (pid_of ctx.pid_tgid) (tid_of ctx.pid_tgid) args.fd ctx.result
        ((ctx.now + 2 ^ 64 - args.ts) % 2 ^ 64) ctx.now)
      (count ctx (record_io_exit args.kind) m)

unfoldable pub exit_close : Context → ℕ → Maps → Maps
exit_close ctx fd m =
    if not (close_releases_fd ctx.result)
    then m
    else output ctx
        (io_bytes event_close (pid_of ctx.pid_tgid) (tid_of ctx.pid_tgid) fd ctx.result 0 ctx.now) m

unfoldable pub exit_dup : Context → ℕ → Maps → Maps
exit_dup ctx old_fd m =
    if is_negative ctx.result
    then m
    else output ctx
        (fd_bytes (pid_of ctx.pid_tgid) (tid_of ctx.pid_tgid) old_fd (result_u32 ctx.result)
          ctx.now)
        m

unfoldable pub exit_close_range : Context → RangeArgs → Maps → Maps
exit_close_range ctx args m =
    if not (int_is_zero ctx.result)
    then m
    else output ctx
        (range_bytes (pid_of ctx.pid_tgid) (tid_of ctx.pid_tgid) args.first_fd args.last_fd
          args.flags ctx.now)
        m

unfoldable pub clear_stashes : ℕ → Maps → Maps
clear_stashes pid_tgid m = record m {
  open_stash = remove pid_tgid m.open_stash;
  io_stash = remove pid_tgid m.io_stash;
  close_stash = remove pid_tgid m.close_stash;
  dup_stash = remove pid_tgid m.dup_stash;
  range_stash = remove pid_tgid m.range_stash;
}

unfoldable pub emit_process_event : ℕ → Context → Maps → Maps
emit_process_event kind ctx m = output ctx (process_bytes kind (pid_of ctx.pid_tgid) ctx.now) m

unfoldable pub emit_leader_process_event : ℕ → Context → Maps → Maps
emit_leader_process_event kind ctx m =
    if not (nat_beq (pid_of ctx.pid_tgid) (tid_of ctx.pid_tgid))
    then m
    else output ctx (process_bytes kind (pid_of ctx.pid_tgid) ctx.now) m

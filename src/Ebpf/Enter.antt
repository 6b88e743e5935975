-- ===== src/Ebpf/Enter.antt =====
-- What ncda-ebpf/src/main.rs stashes when a system call is entered.
use ncda.Base.{
  ℕ, not, ◌||◌, Option, none, some, [], Bytes, length, min, ltb, nat_beq, nat_eq, if◌then◌else◌, ℤ,
}
use ncda.Base.HashMap.{insert}
use ncda.Wire.{max_fname_len}
use ncda.Ebpf.Syscalls.{syscall_arg}
use ncda.Ebpf.Counters.{record_stash_failure, record_scratch_failure, record_io_entry}
use ncda.Ebpf.Store.{OpenArgs, FdArgs, Maps, Context, count, as_u32, as_i32}

abbrev path_truncated : ℕ
path_truncated = 1

abbrev path_read_failed : ℕ
path_read_failed = 2

unfoldable pub open_args : ℤ → Option Bytes → OpenArgs
open_args dirfd none = record {
  fname = [];
  fname_len = 0;
  fname_flags = path_read_failed;
  dirfd = dirfd;
}
open_args dirfd (some filename) = record {
  fname = filename;
  fname_len = min (length filename) max_fname_len;
  fname_flags = (if ltb max_fname_len (length filename) then path_truncated else 0);
  dirfd = dirfd;
}

unfoldable pub enter_open : Context → Maps → Maps
enter_open ctx m =
    if not ctx.has_scratch
    then count ctx record_scratch_failure m
    else if ctx.stashes
    then record m {
      open_stash =
          insert ctx.pid_tgid (open_args (as_i32 (syscall_arg ctx.registers 0)) ctx.filename)
            m.open_stash;
    }
    else count ctx record_stash_failure m

unfoldable pub enter_io : Context → ℕ → Maps → Maps
enter_io ctx kind m =
    let m' = count ctx (record_io_entry kind) m in
    if ctx.stashes
    then record m' {
      io_stash =
          insert ctx.pid_tgid
            (record { ts = ctx.now; fd = as_u32 (syscall_arg ctx.registers 0); kind = kind })
            m'.io_stash;
    }
    else count ctx record_stash_failure m'

abbrev fd_args : Context → FdArgs
fd_args ctx = record { fd = as_u32 (syscall_arg ctx.registers 0) }

-- `enter_fd` with `CLOSE_STASH` and with `DUP_STASH`
unfoldable pub enter_close : Context → Maps → Maps
enter_close ctx m =
    if ctx.stashes
    then record m { close_stash = insert ctx.pid_tgid (fd_args ctx) m.close_stash }
    else count ctx record_stash_failure m

unfoldable pub enter_dup : Context → Maps → Maps
enter_dup ctx m =
    if ctx.stashes
    then record m { dup_stash = insert ctx.pid_tgid (fd_args ctx) m.dup_stash }
    else count ctx record_stash_failure m

abbrev f_dupfd : ℕ
f_dupfd = 0

abbrev f_dupfd_cloexec : ℕ
f_dupfd_cloexec = 1030

unfoldable pub enter_fcntl : Context → Maps → Maps
enter_fcntl ctx m =
    let command = syscall_arg ctx.registers 1 in
    if nat_beq command f_dupfd || nat_beq command f_dupfd_cloexec then enter_dup ctx m else m

unfoldable pub enter_close_range : Context → Maps → Maps
enter_close_range ctx m =
    if ctx.stashes
    then record m {
      range_stash =
          insert ctx.pid_tgid
            (record {
              first_fd = as_u32 (syscall_arg ctx.registers 0);
              last_fd = as_u32 (syscall_arg ctx.registers 1);
              flags = as_u32 (syscall_arg ctx.registers 2);
            })
            m.range_stash;
    }
    else count ctx record_stash_failure m

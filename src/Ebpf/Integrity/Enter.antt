-- ===== src/Ebpf/Integrity/Enter.antt =====
-- The entries of system calls in ncda-ebpf/src/main.rs keep the maps intact.
use ncda.Base.{
  ℕ, ◌^◌, ◌≡◌, ◌⊎◌, inl, inr, refl, Option, none, some, Bytes, nat_eq, ℤ, arith, Bool-cases,
}
use ncda.Wire.{event_read, event_write}
use ncda.Wire.Layout.{IsU32, IsSigned}
use ncda.Ebpf.Syscalls.{Arch, io_kind, syscall_arg}
use ncda.Ebpf.Counters.{
  record_stash_failure, record_scratch_failure, record_io_entry, record_compat_syscall,
}
use ncda.Ebpf.Store.{Maps, Context, count, as_i32}
use ncda.Ebpf.Enter.{
  open_args, enter_open, enter_io, enter_close, enter_dup, enter_fcntl, enter_close_range,
}
use ncda.Ebpf.Records.{IsContext, IsName, IsRw, IsOpen}
use ncda.Ebpf.{sys_enter, enter_other}
use ncda.Ebpf.Integrity.{IsIntact, IsRange, Values-insert, count-IsIntact, either}

as_i32-IsSigned : (n : ℕ) → IsSigned (2 ^ 32) (as_i32 n)
as_i32-IsSigned n = ground arith

open_args-IsOpen :
    (dirfd : ℤ) (filename : Option Bytes)
    → IsSigned (2 ^ 32) dirfd
    → IsName filename
    → IsOpen (open_args dirfd filename)
unfolding open_args
open_args-IsOpen dirfd none d n = ground arith
open_args-IsOpen dirfd (some filename) d n = ground (arith, n)

enter_open-IsIntact :
    (ctx : Context) (m : Maps) → IsContext ctx → IsIntact m → IsIntact (enter_open ctx m)
unfolding enter_open
enter_open-IsIntact ctx m c h = elim (Bool-cases ctx.has_scratch) [
  | inr e ↦ rw e (count-IsIntact ctx record_scratch_failure m h)
  | inl e ↦ elim (Bool-cases ctx.stashes) [
    | inr e' ↦ rw (e, e') (count-IsIntact ctx record_stash_failure m h)
    | inl e' ↦
        let dirfd = as_i32 (syscall_arg ctx.registers 0) in
        let args = open_args-IsOpen dirfd ctx.filename (as_i32-IsSigned _) c.filename in
        rw (e, e')
          (record {
            events = h.events;
            open_stash = Values-insert IsOpen ctx.pid_tgid _ m.open_stash args h.open_stash;
            io_stash = h.io_stash;
            close_stash = h.close_stash;
            dup_stash = h.dup_stash;
            range_stash = h.range_stash;
          })
  ]
]

enter_io-IsIntact :
    (ctx : Context) (kind : ℕ) (m : Maps)
    → IsContext ctx
    → (kind ≡ event_read) ⊎ (kind ≡ event_write)
    → IsIntact m
    → IsIntact (enter_io ctx kind m)
unfolding enter_io
enter_io-IsIntact ctx kind m c k h = elim (Bool-cases ctx.stashes) [
  | inr e ↦ rw e (
      count-IsIntact ctx record_stash_failure (count ctx (record_io_entry kind) m)
        (count-IsIntact ctx (record_io_entry kind) m h))
  | inl e ↦ rw e (record {
    events = h.events;
    open_stash = h.open_stash;
    io_stash =
        Values-insert IsRw ctx.pid_tgid _ m.io_stash
          (record { ts = c.now; fd = omega arith; kind = k }) h.io_stash;
    close_stash = h.close_stash;
    dup_stash = h.dup_stash;
    range_stash = h.range_stash;
  })
]

enter_close-IsIntact :
    (ctx : Context) (m : Maps) → IsContext ctx → IsIntact m → IsIntact (enter_close ctx m)
unfolding enter_close
enter_close-IsIntact ctx m c h = elim (Bool-cases ctx.stashes) [
  | inl e ↦ rw e (record {
    events = h.events;
    open_stash = h.open_stash;
    io_stash = h.io_stash;
    close_stash =
        Values-insert (λ args. IsU32 args.fd) ctx.pid_tgid _ m.close_stash (omega arith)
          h.close_stash;
    dup_stash = h.dup_stash;
    range_stash = h.range_stash;
  })
  | inr e ↦ rw e (count-IsIntact ctx record_stash_failure m h)
]

enter_dup-IsIntact :
    (ctx : Context) (m : Maps) → IsContext ctx → IsIntact m → IsIntact (enter_dup ctx m)
unfolding enter_dup
enter_dup-IsIntact ctx m c h = elim (Bool-cases ctx.stashes) [
  | inl e ↦ rw e (record {
    events = h.events;
    open_stash = h.open_stash;
    io_stash = h.io_stash;
    close_stash = h.close_stash;
    dup_stash =
        Values-insert (λ args. IsU32 args.fd) ctx.pid_tgid _ m.dup_stash (omega arith) h.dup_stash;
    range_stash = h.range_stash;
  })
  | inr e ↦ rw e (count-IsIntact ctx record_stash_failure m h)
]

enter_close_range-IsIntact :
    (ctx : Context) (m : Maps) → IsContext ctx → IsIntact m → IsIntact (enter_close_range ctx m)
unfolding enter_close_range
enter_close_range-IsIntact ctx m c h = elim (Bool-cases ctx.stashes) [
  | inl e ↦ rw e (record {
    events = h.events;
    open_stash = h.open_stash;
    io_stash = h.io_stash;
    close_stash = h.close_stash;
    dup_stash = h.dup_stash;
    range_stash =
        Values-insert IsRange ctx.pid_tgid _ m.range_stash
          (record { first_fd = omega arith; last_fd = omega arith; flags = omega arith })
          h.range_stash;
  })
  | inr e ↦ rw e (count-IsIntact ctx record_stash_failure m h)
]

enter_fcntl-IsIntact :
    (ctx : Context) (m : Maps) → IsContext ctx → IsIntact m → IsIntact (enter_fcntl ctx m)
unfolding enter_fcntl
enter_fcntl-IsIntact ctx m c h = either _ _ _ (enter_dup-IsIntact ctx m c h) h

enter_other-IsIntact :
    (arch : Arch) (ctx : Context) (m : Maps)
    → IsContext ctx
    → IsIntact m
    → IsIntact (enter_other arch ctx m)
unfolding enter_other
enter_other-IsIntact arch ctx m c h = either _ _ _ (enter_close-IsIntact ctx m c h) (
    either _ _ _ (enter_dup-IsIntact ctx m c h) (
      either _ _ _ (enter_fcntl-IsIntact ctx m c h)
        (either _ _ _ (enter_close_range-IsIntact ctx m c h) h)))

io_kind-cases :
    (arch : Arch) (syscall : ℤ) (kind : ℕ)
    → io_kind arch syscall ≡ some kind
    → (kind ≡ event_read) ⊎ (kind ≡ event_write)
unfolding io_kind
io_kind-cases arch syscall kind e = ground arith

pub sys_enter-IsIntact :
    (arch : Arch) (ctx : Context) (m : Maps)
    → IsContext ctx
    → IsIntact m
    → IsIntact (sys_enter arch ctx m)
unfolding sys_enter
sys_enter-IsIntact arch ctx m c h =
    either _ _ _ (count-IsIntact ctx record_compat_syscall m h)
      (either _ _ _ (enter_open-IsIntact ctx m c h) (by_kind (io_kind arch ctx.syscall) refl))
  where
    by_kind :
        (o : Option ℕ)
        → io_kind arch ctx.syscall ≡ o
        → IsIntact (elim o [ some kind ↦ enter_io ctx kind m | none ↦ enter_other arch ctx m ])
    by_kind none e = enter_other-IsIntact arch ctx m c h
    by_kind (some kind) e = enter_io-IsIntact ctx kind m c (io_kind-cases arch ctx.syscall kind e) h

-- ===== src/Ebpf/Integrity/Exit.antt =====
-- The returns of system calls in ncda-ebpf/src/main.rs keep the maps intact.
use ncda.Base.{
  ℕ, ◌+◌, ◌-◌, ◌%◌, ◌^◌, ◌≡◌, refl, not, Option, none, some, nat_eq, arith, is_negative,
}
use ncda.Base.HashMap.{get, remove}
use ncda.Wire.Layout.{IsU32}
use ncda.Ebpf.Syscalls.{Arch}
use ncda.Ebpf.Counters.{record_scratch_failure, record_io_exit}
use ncda.Ebpf.Store.{OpenArgs, RwArgs, FdArgs, RangeArgs, Maps, Context, count}
use ncda.Ebpf.Exit.{exit_open, exit_io, exit_close, exit_dup, exit_close_range, clear_stashes}
use ncda.Ebpf.Records.{
  IsContext, IsRw, IsOpen, open-Readable, io-Readable, close-Readable, dup-Readable, range-Readable,
}
use ncda.Ebpf.{
  sys_exit, exit_other, leave_open, leave_io, leave_close, leave_dup, leave_close_range,
}
use ncda.Ebpf.Integrity.{
  IsIntact, IsRange, Values-remove, Values-get, count-IsIntact, output-IsIntact, either,
}

exit_open-IsIntact :
    (ctx : Context) (args : OpenArgs) (m : Maps)
    → IsContext ctx
    → IsOpen args
    → IsIntact m
    → IsIntact (exit_open ctx args m)
unfolding exit_open
exit_open-IsIntact ctx args m c a h = either (is_negative ctx.result) _ _ h (
    either (not ctx.has_event_buf) _ _ (count-IsIntact ctx record_scratch_failure m h)
      (output-IsIntact ctx _ m h (open-Readable ctx c args a)))

leave_open-IsIntact :
    (ctx : Context) (m : Maps) → IsContext ctx → IsIntact m → IsIntact (leave_open ctx m)
unfolding leave_open
leave_open-IsIntact ctx m c h = by_entry (get ctx.pid_tgid m.open_stash) refl
  where
    by_entry :
        (o : Option OpenArgs)
        → get ctx.pid_tgid m.open_stash ≡ o
        → IsIntact (elim o [
          | none ↦ m
          | some args ↦
              let m' = exit_open ctx args m in
              record m' { open_stash = remove ctx.pid_tgid m'.open_stash }
        ])
    by_entry none e = h
    by_entry (some args) e =
        let entry = Values-get IsOpen ctx.pid_tgid m.open_stash args h.open_stash e in
        let k = exit_open-IsIntact ctx args m c entry h in
        let m' = exit_open ctx args m in
        record {
          events = k.events;
          open_stash = Values-remove IsOpen ctx.pid_tgid m'.open_stash k.open_stash;
          io_stash = k.io_stash;
          close_stash = k.close_stash;
          dup_stash = k.dup_stash;
          range_stash = k.range_stash;
        }

leave_io-IsIntact :
    (ctx : Context) (m : Maps) → IsContext ctx → IsIntact m → IsIntact (leave_io ctx m)
unfolding leave_io
leave_io-IsIntact ctx m c h = by_entry (get ctx.pid_tgid m.io_stash) refl
  where
    by_entry :
        (o : Option RwArgs)
        → get ctx.pid_tgid m.io_stash ≡ o
        → IsIntact (elim o [
          | none ↦ m
          | some args ↦ exit_io ctx args (record m { io_stash = remove ctx.pid_tgid m.io_stash })
        ])
    by_entry none e = h
    by_entry (some args) e =
        let entry = Values-get IsRw ctx.pid_tgid m.io_stash args h.io_stash e in
        let m' = record m { io_stash = remove ctx.pid_tgid m.io_stash } in
        let h' : IsIntact m' = record {
          events = h.events;
          open_stash = h.open_stash;
          io_stash = Values-remove IsRw ctx.pid_tgid m.io_stash h.io_stash;
          close_stash = h.close_stash;
          dup_stash = h.dup_stash;
          range_stash = h.range_stash;
        } in
        unfold exit_io in
        output-IsIntact ctx _ (count ctx (record_io_exit args.kind) m')
          (count-IsIntact ctx (record_io_exit args.kind) m' h')
          (io-Readable ctx c args ((ctx.now + 2 ^ 64 - args.ts) % 2 ^ 64) entry (omega arith))

leave_close-IsIntact :
    (ctx : Context) (m : Maps) → IsContext ctx → IsIntact m → IsIntact (leave_close ctx m)
unfolding leave_close
leave_close-IsIntact ctx m c h = by_entry (get ctx.pid_tgid m.close_stash) refl
  where
    by_entry :
        (o : Option FdArgs)
        → get ctx.pid_tgid m.close_stash ≡ o
        → IsIntact (elim o [
          | none ↦ m
          | some args ↦
              exit_close ctx args.fd (record m { close_stash = remove ctx.pid_tgid m.close_stash })
        ])
    by_entry none e = h
    by_entry (some args) e =
        let entry =
          Values-get (λ args. IsU32 args.fd) ctx.pid_tgid m.close_stash args h.close_stash e in
        let m' = record m { close_stash = remove ctx.pid_tgid m.close_stash } in
        let h' : IsIntact m' = record {
          events = h.events;
          open_stash = h.open_stash;
          io_stash = h.io_stash;
          close_stash =
              Values-remove (λ args. IsU32 args.fd) ctx.pid_tgid m.close_stash h.close_stash;
          dup_stash = h.dup_stash;
          range_stash = h.range_stash;
        } in
        unfold exit_close in
        either _ m' _ h' (output-IsIntact ctx _ m' h' (close-Readable ctx c args.fd entry))

leave_dup-IsIntact :
    (ctx : Context) (m : Maps) → IsContext ctx → IsIntact m → IsIntact (leave_dup ctx m)
unfolding leave_dup
leave_dup-IsIntact ctx m c h = by_entry (get ctx.pid_tgid m.dup_stash) refl
  where
    by_entry :
        (o : Option FdArgs)
        → get ctx.pid_tgid m.dup_stash ≡ o
        → IsIntact (elim o [
          | none ↦ m
          | some args ↦
              exit_dup ctx args.fd (record m { dup_stash = remove ctx.pid_tgid m.dup_stash })
        ])
    by_entry none e = h
    by_entry (some args) e =
        let entry =
          Values-get (λ args. IsU32 args.fd) ctx.pid_tgid m.dup_stash args h.dup_stash e in
        let m' = record m { dup_stash = remove ctx.pid_tgid m.dup_stash } in
        let h' : IsIntact m' = record {
          events = h.events;
          open_stash = h.open_stash;
          io_stash = h.io_stash;
          close_stash = h.close_stash;
          dup_stash = Values-remove (λ args. IsU32 args.fd) ctx.pid_tgid m.dup_stash h.dup_stash;
          range_stash = h.range_stash;
        } in
        unfold exit_dup in
        either _ m' _ h' (output-IsIntact ctx _ m' h' (dup-Readable ctx c args.fd entry))

leave_close_range-IsIntact :
    (ctx : Context) (m : Maps) → IsContext ctx → IsIntact m → IsIntact (leave_close_range ctx m)
unfolding leave_close_range
leave_close_range-IsIntact ctx m c h = by_entry (get ctx.pid_tgid m.range_stash) refl
  where
    by_entry :
        (o : Option RangeArgs)
        → get ctx.pid_tgid m.range_stash ≡ o
        → IsIntact (elim o [
          | none ↦ m
          | some args ↦
              exit_close_range ctx args
                (record m { range_stash = remove ctx.pid_tgid m.range_stash })
        ])
    by_entry none e = h
    by_entry (some args) e =
        let entry = Values-get IsRange ctx.pid_tgid m.range_stash args h.range_stash e in
        let m' = record m { range_stash = remove ctx.pid_tgid m.range_stash } in
        let h' : IsIntact m' = record {
          events = h.events;
          open_stash = h.open_stash;
          io_stash = h.io_stash;
          close_stash = h.close_stash;
          dup_stash = h.dup_stash;
          range_stash = Values-remove IsRange ctx.pid_tgid m.range_stash h.range_stash;
        } in
        unfold exit_close_range in
        either _ m' _ h' (
          output-IsIntact ctx _ m' h' (
            range-Readable ctx c args.first_fd args.last_fd args.flags entry.first_fd entry.last_fd
              entry.flags))

pub sys_exit-IsIntact :
    (arch : Arch) (ctx : Context) (m : Maps)
    → IsContext ctx
    → IsIntact m
    → IsIntact (sys_exit arch ctx m)
unfolding sys_exit exit_other
sys_exit-IsIntact arch ctx m c h = either _ _ _ h (
    either _ _ _ (leave_open-IsIntact ctx m c h) (
      either _ _ _ (leave_io-IsIntact ctx m c h) (
        either _ _ _ (leave_close-IsIntact ctx m c h) (
          either _ _ _ (leave_dup-IsIntact ctx m c h)
            (either _ _ _ (leave_close_range-IsIntact ctx m c h) h)))))

pub clear_stashes-IsIntact :
    (pid_tgid : ℕ) (m : Maps) → IsIntact m → IsIntact (clear_stashes pid_tgid m)
unfolding clear_stashes
clear_stashes-IsIntact pid_tgid m h = record {
  events = h.events;
  open_stash = Values-remove IsOpen pid_tgid m.open_stash h.open_stash;
  io_stash = Values-remove IsRw pid_tgid m.io_stash h.io_stash;
  close_stash = Values-remove (λ args. IsU32 args.fd) pid_tgid m.close_stash h.close_stash;
  dup_stash = Values-remove (λ args. IsU32 args.fd) pid_tgid m.dup_stash h.dup_stash;
  range_stash = Values-remove IsRange pid_tgid m.range_stash h.range_stash;
}

-- ===== src/Ebpf/Integrity/Runs.antt =====
-- Whatever hooks of ncda-ebpf/src/main.rs run, in any order, the parser reads all that they emit.
use ncda.Base.{◌≡◌, refl, List, [], ◌∷◌, Bytes, nat_eq, All}
use ncda.Ebpf.Syscalls.{Arch}
use ncda.Ebpf.Counters.{CaptureStats}
use ncda.Ebpf.Store.{Maps, Context, empty_maps}
use ncda.Ebpf.Exit.{clear_stashes, emit_process_event, emit_leader_process_event}
use ncda.Ebpf.Records.{Readable, IsContext, exec-Readable, exit-Readable}
use ncda.Ebpf.{
  Hook, enter, exit, exec, exit_legacy, exit_group, taskstats, run_hook, run_hooks,
  sched_process_exec, sched_process_exit_legacy, sched_process_exit_group, taskstats_process_exit,
}
use ncda.Ebpf.Integrity.{IsIntact, output-IsIntact, either}
use ncda.Ebpf.Integrity.Enter.{sys_enter-IsIntact}
use ncda.Ebpf.Integrity.Exit.{sys_exit-IsIntact, clear_stashes-IsIntact}
use ncda.Reader.Drain.{malformed}

run_hook-IsIntact :
    (arch : Arch) (hook : Hook) (ctx : Context) (m : Maps)
    → IsContext ctx
    → IsIntact m
    → IsIntact (run_hook arch hook ctx m)
unfolding run_hook sched_process_exec sched_process_exit_legacy sched_process_exit_group
    taskstats_process_exit emit_process_event emit_leader_process_event
run_hook-IsIntact arch enter ctx m c h = sys_enter-IsIntact arch ctx m c h
run_hook-IsIntact arch exit ctx m c h = sys_exit-IsIntact arch ctx m c h
run_hook-IsIntact arch exec ctx m c h =
    either _ _ _ h (output-IsIntact ctx _ m h (exec-Readable ctx c))
run_hook-IsIntact arch exit_legacy ctx m c h = clear_stashes-IsIntact ctx.pid_tgid m h
run_hook-IsIntact arch exit_group ctx m c h =
    let k = clear_stashes-IsIntact ctx.pid_tgid m h in
    either _ _ _ k (output-IsIntact ctx _ (clear_stashes ctx.pid_tgid m) k (exit-Readable ctx c))
run_hook-IsIntact arch taskstats ctx m c h =
    either _ _ _ h (output-IsIntact ctx _ m h (exit-Readable ctx c))

run_hooks-IsIntact :
    (arch : Arch) (hooks : List (Hook × Context)) (m : Maps)
    → All (λ hook. IsContext hook.1) hooks
    → IsIntact m
    → IsIntact (run_hooks arch hooks m)
unfolding run_hooks
run_hooks-IsIntact arch [] m cs h = h
run_hooks-IsIntact arch ((hook, ctx) ∷ rest) m (c, cs) h =
    run_hooks-IsIntact arch rest (run_hook arch hook ctx m) cs
      (run_hook-IsIntact arch hook ctx m c h)

none_malformed : (records : List Bytes) → All Readable records → malformed records ≡ 0
none_malformed [] h = refl
none_malformed (r ∷ records) ((event, (e, w)), h) = rw (e, malformed) (none_malformed records h)

-- Whatever hooks run, on whichever architecture and in whatever order, with whatever failures of the
-- maps and the ring buffer, each record in the ring buffer is read by the parser as a well-formed
-- event: the reader counts none of them as a parse drop.
pub run_hooks-Readable :
    (arch : Arch) (hooks : List (Hook × Context)) (cpus : List CaptureStats)
    → All (λ hook. IsContext hook.1) hooks
    → All Readable (run_hooks arch hooks (empty_maps cpus)).events
      × (malformed (run_hooks arch hooks (empty_maps cpus)).events ≡ 0)
run_hooks-Readable arch hooks cpus cs =
    let empty : IsIntact (empty_maps cpus) = record {
      events = tt;
      open_stash = tt;
      io_stash = tt;
      close_stash = tt;
      dup_stash = tt;
      range_stash = tt;
    } in
    let readable = (run_hooks-IsIntact arch hooks (empty_maps cpus) cs empty).events in
    (readable, none_malformed _ readable)

-- ===== src/Programs/Order.antt =====
-- The order in which ncda/src/bpf.rs attaches and detaches its programs: the entries of system calls
-- are seen only while everything that consumes them is.
use ncda.Base.{
  ◌≡◌, refl, Bool, true, false, not, ◌&&◌, ◌||◌, List, [], ◌∷◌, all, if◌then◌else◌, arith,
}
use ncda.Programs.{
  Program, sys_exit, sched_process_exec, sys_enter, sched_process_exit_group,
  sched_process_exit_legacy, taskstats_process_exit, program_eq, has, Kind, Aya, ProgramError,
  load_failed, attach_failed, detach_failed, Result, ok, err, Kernel, M, ◌>>=◌, then_run, typed,
  without, ProcessExitHook, tracepoint, taskstats_kprobe, load_program, load_hook, load_programs,
  attach_program, attach_hook, attach_programs, detach_program, detach, kind_of, raw_tracepoint,
}

-- The consumers of exits and of the ends of processes.
abbrev pub exits_seen : ProcessExitHook → List Program → Bool
exits_seen tracepoint ps = has sched_process_exit_group ps
exits_seen taskstats_kprobe ps = has sched_process_exit_legacy ps && has taskstats_process_exit ps

abbrev pub is_guarded : ProcessExitHook → List Program → Bool
is_guarded hook ps =
    not (has sys_enter ps) || (has sys_exit ps && has sched_process_exec ps && exits_seen hook ps)

abbrev pub Guarded : ProcessExitHook → Kernel → Type 0
Guarded hook k = all (is_guarded hook) k.moments ≡ true

-- A postcondition of a program that calls the library: the call fails and nothing happens, or it
-- succeeds and the program goes on.
module _ {A : Type 0} (P : Result A × Kernel → Type 0) (aya : Aya) (p : Program) (k : Kernel)
    (fails : (e : ProgramError) → P (err e, k)) where
  load_step :
      (kind : Kind) (f : Unit {0} → M A)
      → P (f tt (record k { loaded = p ∷ k.loaded }))
      → P ((load_program aya kind p >>= f) k)
  unfolding load_program
  load_step kind f h = from (typed kind p (aya.program p)) (aya.loads p)
    where
      from :
          (r : Result (Unit {0})) (b : Bool)
          → P (
              then_run
                (then_run
                  (r, k)
                  (λ _ k'.
                    if b
                    then (ok tt, record k' { loaded = p ∷ k'.loaded })
                    else (err (load_failed p), k')))
                f)
      from (err e) b = fails e
      from (ok u) true = h
      from (ok u) false = fails (load_failed p)

  attach_step :
      (kind : Kind) (links : List Program) (f : List Program → M A)
      → P (
          f
            (p ∷ links)
            (record k { attached = p ∷ k.attached; moments = (p ∷ k.attached) ∷ k.moments }))
      → P ((attach_program aya kind p links >>= f) k)
  unfolding attach_program
  attach_step kind links f h = from (typed kind p (aya.program p))
    where
      decided :
          (b : Bool)
          → P (
              then_run
                (then_run
                  (if b
                    then (
                      ok tt,
                      record k {
                        attached = p ∷ k.attached;
                        moments = (p ∷ k.attached) ∷ k.moments;
                      },
                    )
                    else (err (attach_failed p), k))
                  (λ _ k'. (ok (p ∷ links), k')))
                f)
      decided true = h
      decided false = fails (attach_failed p)

      from :
          (r : Result (Unit {0}))
          → P (
              then_run
                (then_run
                  (r, k)
                  (λ _ k'.
                    then_run
                      (if has p k'.loaded && aya.attaches p
                        then (
                          ok tt,
                          record k' {
                            attached = p ∷ k'.attached;
                            moments = (p ∷ k'.attached) ∷ k'.moments;
                          },
                        )
                        else (err (attach_failed p), k'))
                      (λ _ k''. (ok (p ∷ links), k''))))
                f)
      from (err e) = fails e
      from (ok u) = decided (has p k.loaded && aya.attaches p)

  detach_step :
      (f : Unit {0} → M A)
      → P (
          f tt (record k {
            attached = without p k.attached;
            moments = without p k.attached ∷ k.moments;
          }))
      → P ((detach_program aya p >>= f) k)
  unfolding detach_program
  detach_step f h = from (typed (kind_of p) p (aya.program p)) (aya.detaches p)
    where
      from :
          (r : Result (Unit {0})) (b : Bool)
          → P (
              then_run
                (then_run
                  (r, k)
                  (λ _ k'.
                    if b
                    then (
                      ok tt,
                      record k' {
                        attached = without p k'.attached;
                        moments = without p k'.attached ∷ k'.moments;
                      },
                    )
                    else (err (detach_failed p), k')))
                f)
      from (err e) b = fails e
      from (ok u) true = h
      from (ok u) false = fails (detach_failed p)

-- What ncda/src/main.rs does with the programs, from start to end.
abbrev pub session : Aya → ProcessExitHook → M (Unit {0})
session aya hook =
    load_programs aya hook >>= λ found. attach_programs aya found >>= λ links. detach aya links

-- At each moment the entries were guarded, and after a session without an error nothing is attached.
abbrev pub Safe : ProcessExitHook → Result (Unit {0}) × Kernel → Type 0
Safe hook (err e, k) = Guarded hook k
Safe hook (ok u, k) = Guarded hook k × (k.attached ≡ [])

abbrev pub kernel : List Program → List Program → List (List Program) → Kernel
kernel loaded attached moments = record { loaded = loaded; attached = attached; moments = moments }

program_eq_refl : (p : Program) → program_eq p p ≡ true
program_eq_refl sys_exit = refl
program_eq_refl sched_process_exec = refl
program_eq_refl sys_enter = refl
program_eq_refl sched_process_exit_group = refl
program_eq_refl sched_process_exit_legacy = refl
program_eq_refl taskstats_process_exit = refl

without-first : (p : Program) (ps : List Program) → without p (p ∷ ps) ≡ ps
without-first p ps = rw (program_eq_refl p)

-- What is left after each of the programs.
abbrev tails : List Program → List (List Program)
tails [] = []
tails (p ∷ ps) = ps ∷ tails ps

module _ (hook : ProcessExitHook) (aya : Aya) where
  -- Detaching programs in the order in which they stand.
  detach-Safe :
      (loaded ps : List Program) (moments : List (List Program))
      → all (is_guarded hook) (tails ps) ≡ true
      → all (is_guarded hook) moments ≡ true
      → Safe hook (detach aya ps (kernel loaded ps moments))
  unfolding detach
  detach-Safe loaded [] moments h fine = (fine, refl)
  detach-Safe loaded (p ∷ ps) moments h fine =
      detach_step (Safe hook) aya p (kernel loaded (p ∷ ps) moments) (λ e. fine)
        (λ _. detach aya ps)
        (rw (without-first p ps)
          (detach-Safe loaded ps (ps ∷ moments) (ground arith) (ground (arith, h))))

abbrev then_detach : Aya → Result (List Program) × Kernel → Result (Unit {0}) × Kernel
then_detach aya x = then_run x (detach aya)

-- The attachments after the consumers of exits.
abbrev after_exits : Aya → List Program → M (List Program)
after_exits aya exits = attach_program aya raw_tracepoint sched_process_exec exits >>= λ lifecycle.
    attach_program aya raw_tracepoint sys_enter lifecycle

-- The rest of a session once the programs are loaded.
abbrev after_load : Aya → Result ProcessExitHook × Kernel → Result (Unit {0}) × Kernel
after_load aya x = then_run x (λ found. attach_programs aya found >>= λ links. detach aya links)

module _ (aya : Aya) (loaded : List Program) (before : List (List Program)) where
  tracepoint-Safe :
      all (is_guarded tracepoint) before ≡ true
      → Safe tracepoint (then_detach aya (attach_programs aya tracepoint (kernel loaded [] before)))
  unfolding attach_programs attach_hook
  tracepoint-Safe fine =
      attach_step (λ x. Safe tracepoint (then_detach aya x)) aya sys_exit _ (λ e. fine) _ _ _
        (attach_step (λ x. Safe tracepoint (then_detach aya x)) aya sched_process_exit_group _
          (λ e. fine) _ _ _
          (attach_step (λ x. Safe tracepoint (then_detach aya x)) aya sched_process_exec _
            (λ e. fine) _ _ _
            (attach_step (Safe tracepoint) aya sys_enter _ (λ e. fine) _ _ _
              (detach-Safe tracepoint aya loaded _ _ refl fine))))

  taskstats-Safe :
      all (is_guarded taskstats_kprobe) before ≡ true
      → Safe taskstats_kprobe
          (then_detach aya (attach_programs aya taskstats_kprobe (kernel loaded [] before)))
  unfolding attach_programs attach_hook
  taskstats-Safe fine =
      attach_step (λ x. Safe taskstats_kprobe (then_detach aya x)) aya sys_exit _ (λ e. fine) _ _ _
        (attach_step (λ x. Safe taskstats_kprobe (then_detach aya (then_run x (after_exits aya))))
          aya sched_process_exit_legacy _ (λ e. fine) _ _ _
          (attach_step (λ x. Safe taskstats_kprobe (then_detach aya x)) aya taskstats_process_exit _
            (λ e. fine) _ _ _
            (attach_step (λ x. Safe taskstats_kprobe (then_detach aya x)) aya sched_process_exec _
              (λ e. fine) _ _ _
              (attach_step (Safe taskstats_kprobe) aya sys_enter _ (λ e. fine) _ _ _
                (detach-Safe taskstats_kprobe aya loaded _ _ refl fine)))))

attach_programs-Safe :
    (hook : ProcessExitHook) (aya : Aya) (loaded : List Program) (before : List (List Program))
    → all (is_guarded hook) before ≡ true
    → Safe hook (then_detach aya (attach_programs aya hook (kernel loaded [] before)))
attach_programs-Safe tracepoint aya loaded before fine = tracepoint-Safe aya loaded before fine
attach_programs-Safe taskstats_kprobe aya loaded before fine = taskstats-Safe aya loaded before fine

-- Whatever the kernel finds and whichever call fails, in a session of loading, attaching and
-- detaching for either hook, from no attached program: at each moment at which system calls' entries are
-- seen, so are their exits, the executions and the ends of processes; and a session without an error
-- leaves nothing attached.
pub session-Safe :
    (hook : ProcessExitHook) (aya : Aya) (loaded : List Program) (before : List (List Program))
    → all (is_guarded hook) before ≡ true
    → Safe hook (session aya hook (kernel loaded [] before))
unfolding load_programs load_hook
session-Safe tracepoint aya loaded before fine =
    load_step (λ x. Safe tracepoint (after_load aya x)) aya sys_exit _ (λ e. fine) _ _
      (load_step (λ x. Safe tracepoint (after_load aya x)) aya sched_process_exec _ (λ e. fine) _ _
        (load_step (λ x. Safe tracepoint (after_load aya x)) aya sys_enter _ (λ e. fine) _ _
          (load_step (λ x. Safe tracepoint (after_load aya x)) aya sched_process_exit_group _
            (λ e. fine) _ _ (attach_programs-Safe tracepoint aya _ before fine))))
session-Safe taskstats_kprobe aya loaded before fine =
    load_step (λ x. Safe taskstats_kprobe (after_load aya x)) aya sys_exit _ (λ e. fine) _ _
      (load_step (λ x. Safe taskstats_kprobe (after_load aya x)) aya sched_process_exec _
        (λ e. fine) _ _
        (load_step (λ x. Safe taskstats_kprobe (after_load aya x)) aya sys_enter _ (λ e. fine) _ _
          (load_step (λ x. Safe taskstats_kprobe (after_load aya x)) aya sched_process_exit_legacy _
            (λ e. fine) _ _
            (load_step (λ x. Safe taskstats_kprobe (after_load aya x)) aya taskstats_process_exit _
              (λ e. fine) _ _ (attach_programs-Safe taskstats_kprobe aya _ before fine)))))

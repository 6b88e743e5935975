-- ===== src/Programs/Examples.antt =====
-- Sessions with the kernel's programs at concrete answers, after the tests of ncda/src/bpf.rs.
use ncda.Base.{◌≡◌, refl, true, false, not, some, [], ◌∷◌, ◌++◌, ascii}
use ncda.Programs.{
  sys_exit, sched_process_exec, sys_enter, sched_process_exit_legacy, taskstats_process_exit,
  program_eq, kind_of, Aya, attach_failed, err, typed, tracepoint, taskstats_kprobe,
  tracepoint_has_group_dead, load_program, load_hook, load_programs, attach_program, attach_hook,
  attach_programs, detach_program, detach,
}
use ncda.Programs.Order
use ncda.Programs.Order.{Safe, session, kernel}

program : Unit {0}
unfolding typed load_program load_hook load_programs attach_program attach_hook attach_programs
    detach_program detach
program = tt

-- `process_exit_tracepoint_detection_checks_fields`
legacy_format :
    tracepoint_has_group_dead (ascii "field:pid_t pid;" ++ 9 ∷ ascii "offset:24;") ≡ false
unfolding tracepoint_has_group_dead
legacy_format = refl

current_format :
    tracepoint_has_group_dead
      (ascii "field:pid_t pid;" ++ 10 ∷ ascii "field:bool group_dead;" ++ 9 ∷ ascii "size:1;")
    ≡ true
unfolding tracepoint_has_group_dead
current_format = refl

abbrev willing : Aya
willing = record {
  program = λ p. some (kind_of p);
  loads = λ p. true;
  attaches = λ p. true;
  detaches = λ p. true;
}

-- One program cannot be attached.
abbrev unwilling : Aya
unwilling = record willing { attaches = λ p. not (program_eq p sched_process_exec) }

whole_session :
    (session willing taskstats_kprobe (kernel [] [] [])).1.moments
    ≡ []
      ∷ (sys_exit ∷ [])
      ∷ (sched_process_exit_legacy ∷ sys_exit ∷ [])
      ∷ (taskstats_process_exit ∷ sched_process_exit_legacy ∷ sys_exit ∷ [])
      ∷ (sched_process_exec ∷ taskstats_process_exit ∷ sched_process_exit_legacy ∷ sys_exit ∷ [])
      ∷ (sys_enter ∷ sched_process_exec ∷ taskstats_process_exit ∷ sched_process_exit_legacy
          ∷ sys_exit ∷ [])
      ∷ (sched_process_exec ∷ taskstats_process_exit ∷ sched_process_exit_legacy ∷ sys_exit ∷ [])
      ∷ (taskstats_process_exit ∷ sched_process_exit_legacy ∷ sys_exit ∷ [])
      ∷ (sched_process_exit_legacy ∷ sys_exit ∷ [])
      ∷ (sys_exit ∷ [])
      ∷ []
unfolding program
whole_session = refl

failed_session :
    (session unwilling tracepoint (kernel [] [] [])).0 ≡ err (attach_failed sched_process_exec)
unfolding program
failed_session = refl

session-Safe_example : Safe tracepoint (session willing tracepoint (kernel [] [] []))
session-Safe_example = Order.session-Safe tracepoint willing [] [] refl

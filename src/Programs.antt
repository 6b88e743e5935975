-- ===== src/Programs.antt =====
-- The loading, attaching and detaching of the kernel's programs in ncda/src/bpf.rs. The library that
-- makes the system calls is a parameter: what it finds, and which of its calls succeed. As it documents,
-- a program attaches only once it is loaded, and a call that fails changes nothing.
pub mod Order
mod Examples
use ncda.Base.{
  ℕ, Bool, true, false, ◌&&◌, ◌||◌, Option, none, some, List, [], ◌∷◌, Bytes, any, ascii, lines,
  contains, split_whitespace, words_from, trim_end_matches, skip_byte, unwrap_or, if◌then◌else◌,
  ◌==◌, nat_eq, list_eq,
}

-- The programs of ncda-ebpf/src/main.rs, by their names.
pub data Program : Type 0 where
  sys_exit : Program
  sched_process_exec : Program
  sys_enter : Program
  sched_process_exit_group : Program
  sched_process_exit_legacy : Program
  taskstats_process_exit : Program

abbrev pub program_eq : Program → Program → Bool
program_eq sys_exit sys_exit = true
program_eq sched_process_exec sched_process_exec = true
program_eq sys_enter sys_enter = true
program_eq sched_process_exit_group sched_process_exit_group = true
program_eq sched_process_exit_legacy sched_process_exit_legacy = true
program_eq taskstats_process_exit taskstats_process_exit = true
program_eq _ _ = false

abbrev pub has : Program → List Program → Bool
has p ps = any (program_eq p) ps

-- The types that a program can have.
pub data Kind : Type 0 where
  raw_tracepoint : Kind
  kprobe : Kind
  other_kind : Kind

abbrev pub kind_eq : Kind → Kind → Bool
kind_eq raw_tracepoint raw_tracepoint = true
kind_eq kprobe kprobe = true
kind_eq other_kind other_kind = true
kind_eq _ _ = false

pub record Aya : Type 0 where
  pub program : Program → Option Kind
  pub loads : Program → Bool
  pub attaches : Program → Bool
  pub detaches : Program → Bool

-- What the errors' contexts say.
pub data ProgramError : Type 0 where
  not_found : Program → ProgramError
  unexpected_type : Program → ProgramError
  load_failed : Program → ProgramError
  attach_failed : Program → ProgramError
  detach_failed : Program → ProgramError

pub data Result (A : Type 0) : Type 0 where
  ok : A → Result A
  err : ProgramError → Result A

-- The programs in the kernel: those that are loaded, those that are attached, the last first, and
-- those that were attached at each moment until now.
pub record Kernel : Type 0 where
  pub loaded : List Program
  pub attached : List Program
  pub moments : List (List Program)

abbrev pub M : Type 0 → Type 0
M A = Kernel → Result A × Kernel

abbrev pub then_run : {A B : Type 0} → Result A × Kernel → (A → M B) → Result B × Kernel
then_run (ok a, k) f = f a k
then_run (err e, k) f = (err e, k)

infixl 5 ◌>>=◌ ◌>>◌
abbrev pub ◌>>=◌ : {A B : Type 0} → M A → (A → M B) → M B
◌>>=◌ m f k = then_run (m k) f

abbrev pub ◌>>◌ : {B : Type 0} → M (Unit {0}) → M B → M B
m >> f = m >>= λ _. f

abbrev pub done : {A : Type 0} → A → M A
done a k = (ok a, k)

-- `program_mut(name)` and `try_into`
pub typed : Kind → Program → Option Kind → Result (Unit {0})
typed kind p none = err (not_found p)
typed kind p (some found) = if kind_eq kind found then ok tt else err (unexpected_type p)

abbrev pub find_program : Aya → Kind → Program → M (Unit {0})
find_program aya kind p k = (typed kind p (aya.program p), k)

abbrev load : Aya → Program → M (Unit {0})
load aya p k =
    if aya.loads p then (ok tt, record k { loaded = p ∷ k.loaded }) else (err (load_failed p), k)

abbrev attach : Aya → Program → M (Unit {0})
attach aya p k =
    if has p k.loaded && aya.attaches p
    then (ok tt, record k { attached = p ∷ k.attached; moments = (p ∷ k.attached) ∷ k.moments })
    else (err (attach_failed p), k)

abbrev without : Program → List Program → List Program
without p [] = []
without p (q ∷ qs) = let rest = without p qs in if program_eq p q then qs else q ∷ rest

abbrev detach_link : Aya → Program → M (Unit {0})
detach_link aya p k =
    if aya.detaches p
    then (
      ok tt,
      record k { attached = without p k.attached; moments = without p k.attached ∷ k.moments },
    )
    else (err (detach_failed p), k)

pub data ProcessExitHook : Type 0 where
  tracepoint : ProcessExitHook
  taskstats_kprobe : ProcessExitHook

-- A field of a tracepoint's format, as its line spells it.
abbrev names_group_dead : Bytes → Bool
names_group_dead field =
    skip_byte b'*' (trim_end_matches b']' (trim_end_matches b';' field)) == ascii "group_dead"

pub tracepoint_has_group_dead : Bytes → Bool
unfolding lines split_whitespace words_from
tracepoint_has_group_dead format =
    any (λ line. contains (ascii "field:") line && any names_group_dead (split_whitespace line))
      (lines format)

-- The format is read from tracefs, or else from debugfs; `none` is a failure.
abbrev hook_of : Option Bytes → ProcessExitHook
hook_of none = taskstats_kprobe
hook_of (some format) = if tracepoint_has_group_dead format then tracepoint else taskstats_kprobe

pub process_exit_hook : Option Bytes → Option Bytes → ProcessExitHook
process_exit_hook none debug = hook_of debug
process_exit_hook (some format) debug = hook_of (some format)

pub load_program : Aya → Kind → Program → M (Unit {0})
load_program aya kind p = do find_program aya kind p; load aya p

abbrev load_raw : Aya → Program → M (Unit {0})
load_raw aya p = load_program aya raw_tracepoint p

pub load_hook : Aya → ProcessExitHook → M ProcessExitHook
load_hook aya tracepoint = do load_raw aya sched_process_exit_group; done tracepoint
load_hook aya taskstats_kprobe = do
  load_raw aya sched_process_exit_legacy
  load_program aya kprobe taskstats_process_exit
  done taskstats_kprobe

pub load_programs : Aya → ProcessExitHook → M ProcessExitHook
load_programs aya hook = do
  load_raw aya sys_exit
  load_raw aya sched_process_exec
  load_raw aya sys_enter
  load_hook aya hook

-- The links so far, and one more.
pub attach_program : Aya → Kind → Program → List Program → M (List Program)
attach_program aya kind p links = do find_program aya kind p; attach aya p; done (p ∷ links)

abbrev attach_raw : Aya → Program → List Program → M (List Program)
attach_raw aya p links = attach_program aya raw_tracepoint p links

pub attach_hook : Aya → ProcessExitHook → List Program → M (List Program)
attach_hook aya tracepoint links = attach_raw aya sched_process_exit_group links
attach_hook aya taskstats_kprobe links =
    attach_raw aya sched_process_exit_legacy links >>= λ links'.
    attach_program aya kprobe taskstats_process_exit links'

-- The links, the last first: `detach` takes them in reverse.
pub attach_programs : Aya → ProcessExitHook → M (List Program)
attach_programs aya hook = attach_raw aya sys_exit [] >>= λ first.
    attach_hook aya hook first >>= λ exits.
    attach_raw aya sched_process_exec exits >>= λ lifecycle. attach_raw aya sys_enter lifecycle

abbrev pub kind_of : Program → Kind
kind_of taskstats_process_exit = kprobe
kind_of _ = raw_tracepoint

pub detach_program : Aya → Program → M (Unit {0})
detach_program aya p = do find_program aya (kind_of p) p; detach_link aya p

-- `AttachedPrograms::detach`, of links in the order in which it takes them.
pub detach : Aya → List Program → M (Unit {0})
detach aya [] = done tt
detach aya (p ∷ ps) = do detach_program aya p; detach aya ps

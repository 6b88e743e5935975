-- ===== src/Fd/Lifecycle.antt =====
-- `FdPathCache` of ncda/src/bpf.rs against its contract: a function from descriptors to paths that
-- each call changes where the kernel changes the descriptor table.
use ncda.Base.{
  ℕ, ◌≡◌, refl, ◌∙◌, ap, not, ◌&&◌, ◌||◌, Option, none, some, List, [], ◌∷◌, ◌++◌, Bytes, nat_beq,
  ltb, leb, if◌then◌else◌, pair_eq, nat_eq, ℤ, arith, Option-cases, inl, inr, list_eq,
}
use ncda.Base.HashMap.{get, get-insert, get-retain, get-remove}
use ncda.Procfs.{Procfs}
use ncda.Paths.{trim_deleted_suffix}
use ncda.Fd.{
  FdPathCache, store, on_close, on_close_range, on_process_reset, invalidate_all, lookup, resolve,
  resolve_existing, resolve_absolute, resolve_relative, resolve_ordinary, resolve_proc_target,
  ordinary_target, strip_container_root, is_cloexec, base_dir,
}

pub data Call : Type 0 where
  resolve_call : Procfs → (pid fd : ℕ) → ℤ → Bytes → ℕ → Call
  existing_call : Procfs → (pid fd : ℕ) → Call
  store_call : (pid fd : ℕ) → Bytes → Call
  close_call : (pid fd : ℕ) → Call
  range_call : (pid first_fd last_fd flags : ℕ) → Call
  reset_call : (pid : ℕ) → Call
  invalidate_call : Call

unfoldable pub step : Call → FdPathCache → FdPathCache
step (resolve_call proc pid fd dirfd raw flags) c = (resolve proc pid fd dirfd raw flags c).1
step (existing_call proc pid fd) c = (resolve_existing proc pid fd c).1
step (store_call pid fd path) c = store pid fd path c
step (close_call pid fd) c = on_close pid fd c
step (range_call pid first_fd last_fd flags) c = on_close_range pid first_fd last_fd flags c
step (reset_call pid) c = on_process_reset pid c
step invalidate_call c = invalidate_all c

unfoldable pub run : FdPathCache → List Call → FdPathCache
run c [] = c
run c (call ∷ calls) = run (step call c) calls

-- What a call does to the path of one descriptor.
abbrev pub expected_step : Call → ℕ → ℕ → Option Bytes → Option Bytes
expected_step (resolve_call proc p f dirfd raw flags) pid fd path = path
expected_step (existing_call proc p f) pid fd path = path
expected_step (store_call p f new_path) pid fd path =
    if nat_beq p pid && nat_beq f fd then some new_path else path
expected_step (close_call p f) pid fd path = if nat_beq p pid && nat_beq f fd then none else path
expected_step (range_call p first_fd last_fd flags) pid fd path =
    if not (is_cloexec flags) && nat_beq p pid && leb first_fd fd && leb fd last_fd
    then none
    else path
expected_step (reset_call p) pid fd path = if nat_beq p pid then none else path
expected_step invalidate_call pid fd path = none

unfoldable pub expected : ℕ → ℕ → List Call → Option Bytes → Option Bytes
expected pid fd [] path = path
expected pid fd (call ∷ calls) path = expected pid fd calls (expected_step call pid fd path)

-- Resolving reads the cache of roots alone.
strip_map :
    (proc : Procfs) (pid : ℕ) (path : Bytes) (c : FdPathCache)
    → (strip_container_root proc pid path c).1.map ≡ c.map
unfolding strip_container_root
strip_map proc pid path c = ground arith

target_map :
    (proc : Procfs) (pid fd : ℕ) (c : FdPathCache)
    → (resolve_proc_target proc pid fd c).1.map ≡ c.map
unfolding resolve_proc_target ordinary_target
target_map proc pid fd c = elim (Option-cases (proc.fd pid fd)) [
  | inl e ↦ ground (arith, e)
  | inr (target, e) ↦ ground (arith, e, strip_map proc pid (trim_deleted_suffix target) c)
]

absolute_map :
    (proc : Procfs) (pid fd : ℕ) (raw : Bytes) (c : FdPathCache)
    → (resolve_absolute proc pid fd raw c).1.map ≡ c.map
unfolding resolve_absolute
absolute_map proc pid fd raw c = ground (arith, target_map proc pid fd c)

relative_map :
    (proc : Procfs) (pid fd : ℕ) (base raw : Bytes) (c : FdPathCache)
    → (resolve_relative proc pid fd base raw c).1.map ≡ c.map
unfolding resolve_relative
relative_map proc pid fd base raw c =
    let (candidate, c') = strip_container_root proc pid (base ++ b'/' ∷ raw) c in
    target_map proc pid fd c' ∙ strip_map proc pid (base ++ b'/' ∷ raw) c

ordinary_map :
    (proc : Procfs) (pid fd : ℕ) (dirfd : ℤ) (raw : Bytes) (c : FdPathCache)
    → (resolve_ordinary proc pid fd dirfd raw c).1.map ≡ c.map
unfolding resolve_ordinary
ordinary_map proc pid fd dirfd raw c = elim (Option-cases (base_dir proc pid dirfd)) [
  | inl e ↦ ground (arith, e, absolute_map proc pid fd raw c)
  | inr (base, e) ↦
      ground (arith, e, absolute_map proc pid fd raw c, relative_map proc pid fd base raw c)
]

resolve_map :
    (proc : Procfs) (pid fd : ℕ) (dirfd : ℤ) (raw : Bytes) (flags : ℕ) (c : FdPathCache)
    → (resolve proc pid fd dirfd raw flags c).1.map ≡ c.map
unfolding resolve
resolve_map proc pid fd dirfd raw flags c = ground (arith, ordinary_map proc pid fd dirfd raw c)

lookup-step :
    (call : Call) (pid fd : ℕ) (c : FdPathCache)
    → lookup pid fd (step call c) ≡ expected_step call pid fd (lookup pid fd c)
unfolding step lookup store on_close on_close_range on_process_reset invalidate_all resolve_existing
lookup-step (resolve_call proc p f dirfd raw flags) pid fd c =
    ap (get (pid, fd)) (resolve_map proc p f dirfd raw flags c)
lookup-step (existing_call proc p f) pid fd c = ap (get (pid, fd)) (target_map proc p f c)
lookup-step (store_call p f path) pid fd c = get-insert (p, f) (pid, fd) path c.map
lookup-step (close_call p f) pid fd c = get-remove (p, f) (pid, fd) c.map
lookup-step (range_call p first_fd last_fd flags) pid fd c = ground (
  arith,
  get-retain (λ (key : ℕ × ℕ). not (nat_beq key.0 p) || ltb key.1 first_fd || ltb last_fd key.1)
      (pid, fd) c.map,
)
lookup-step (reset_call p) pid fd c =
    ground (arith, get-retain (λ (key : ℕ × ℕ). not (nat_beq key.0 p)) (pid, fd) c.map)
lookup-step invalidate_call pid fd c = refl

-- After any sequence of resolutions, stores, closes, ranges closed, processes reset and
-- invalidations, a lookup gives what the calls that concern its descriptor leave there.
pub lookup-run :
    (calls : List Call) (pid fd : ℕ) (c : FdPathCache)
    → lookup pid fd (run c calls) ≡ expected pid fd calls (lookup pid fd c)
unfolding run expected
lookup-run [] pid fd c = refl
lookup-run (call ∷ calls) pid fd c =
    lookup-run calls pid fd (step call c) ∙ ap (expected pid fd calls) (lookup-step call pid fd c)

-- ===== src/Tree/Index.antt =====
-- The reverse index of a tree: it leads to every node that holds statistics of a process, so that
-- `remove_process` finds them all without a scan.
use ncda.Base.{
  is_some, unwrap_or, ℕ, ◌≡◌, refl, Bool, true, ◌&&◌, ◌||◌, none, List, [], ◌∷◌, ◌++◌, Bytes, any,
  if◌then◌else◌, ◌==◌, nat_beq, nat_eq, list_eq, list_beq_iff, Option-cases, inl, inr, arith,
  path_components, nat_beq_iff,
}
use ncda.Base.HashMap.{get, get-remove}
use ncda.Stats.{NodeStats}
use ncda.Tree.{
  FileTree, new, new_node, record_stats, remove_paths, remove_process, forget, set_insert, get_node,
  update_node, child_get, forget_path,
}
use ncda.Tree.View.{view, view-update_node}
use ncda.Tree.Walk.{process_at}
use ncda.Tree.Record.{process_at-record_stats, paths-record_stats}

-- Some path among `paths` leads to the components `qs`.
abbrev pub leads_to : List Bytes → List Bytes → Bool
leads_to qs paths = any (λ path. path_components path == qs) paths

-- Wherever a process has statistics, the index of that process leads there.
abbrev pub IsIndexed : FileTree → Type 0
IsIndexed t =
    (p : ℕ) (qs : List Bytes)
    → is_some (process_at p qs t.root) ≡ true
    → leads_to qs (unwrap_or (get p t.paths_by_process) []) ≡ true

any-append :
    (f : Bytes → Bool) (ps : List Bytes) (p : Bytes) → any f (ps ++ p ∷ []) ≡ (any f ps || f p)
any-append f [] p = ground arith
any-append f (q ∷ ps) p = ground (arith, any-append f ps p)

any_of_member :
    (f : Bytes → Bool) (ps : List Bytes) (p : Bytes)
    → any (λ q. q == p) ps ≡ true
    → f p ≡ true
    → any f ps ≡ true
any_of_member f [] p h k = cc
any_of_member f (q ∷ ps) p h k = ground (arith, list_beq_iff q p, any_of_member f ps p)

any-set_insert :
    (f : Bytes → Bool) (p : Bytes) (ps : List Bytes) → any f (set_insert p ps) ≡ (any f ps || f p)
any-set_insert f p ps = ground (arith, any-append f ps p, any_of_member f ps p)

pub new-IsIndexed : IsIndexed new
unfolding new process_at view get_node new_node child_get
new-IsIndexed p [] h = cc
new-IsIndexed p (q ∷ qs) h = cc

pub record_stats-IsIndexed :
    (path : Bytes) (pid : ℕ) (delta : NodeStats) (t : FileTree)
    → IsIndexed t
    → IsIndexed (record_stats path pid delta t)
record_stats-IsIndexed path pid delta t h p qs = ground (
  arith,
  h p qs,
  h pid (path_components path),
  nat_beq_iff pid p,
  list_beq_iff qs (path_components path),
  list_beq_iff (path_components path) qs,
  process_at-record_stats path pid delta t p qs,
  paths-record_stats path pid delta t p,
  any-set_insert (λ (path : Bytes). path_components path == qs) path
      (unwrap_or (get p t.paths_by_process) []),
)

process-update_node :
    (p pid : ℕ) (cs qs : List Bytes) (t : FileTree)
    → process_at p qs (update_node cs (forget pid) t.root) ≡ (
        if qs == cs
        then (if nat_beq pid p then none else process_at p qs t.root)
        else process_at p qs t.root)
process-update_node p pid cs qs t =
    unfold process_at in
    view-update_node (λ i. get p i.per_process) none (λ o. if nat_beq pid p then none else o)
      (forget pid) (ground arith) (λ i. get-remove pid p i.per_process) cs qs t.root

process-remove_paths :
    (p pid : ℕ) (qs : List Bytes) (paths : List Bytes) (t : FileTree)
    → process_at p qs (remove_paths pid paths t).root
      ≡ (if nat_beq pid p && leads_to qs paths then none else process_at p qs t.root)
unfolding remove_paths
process-remove_paths p pid qs [] t = ground arith
process-remove_paths p pid qs (path ∷ paths) t =
    rw (process-remove_paths p pid qs paths (forget_path pid path t)) (
      ground (
        arith,
        process-update_node p pid (path_components path) qs t,
        list_beq_iff qs (path_components path),
        list_beq_iff (path_components path) qs,
      ))

paths-remove_paths :
    (pid : ℕ) (paths : List Bytes) (t : FileTree)
    → (remove_paths pid paths t).paths_by_process ≡ t.paths_by_process
unfolding remove_paths
paths-remove_paths pid [] t = refl
paths-remove_paths pid (path ∷ paths) t = paths-remove_paths pid paths (forget_path pid path t)

-- The index loses the process, and keeps all others.
paths-remove_process :
    (p pid : ℕ) (t : FileTree)
    → get p (remove_process pid t).paths_by_process
      ≡ (if nat_beq pid p then none else get p t.paths_by_process)
unfolding remove_process
paths-remove_process p pid t = elim (Option-cases (get pid t.paths_by_process)) [
  | inl e ↦ rw (e, remove_process) (ground (arith, nat_beq_iff pid p))
  | inr (paths, e) ↦
      rw (e, remove_process, paths-remove_paths) (get-remove pid p t.paths_by_process)
]

process-remove_process_indexed :
    (p pid : ℕ) (qs : List Bytes) (t : FileTree)
    → process_at p qs (remove_process pid t).root ≡ (
        if nat_beq pid p && leads_to qs (unwrap_or (get pid t.paths_by_process) [])
        then none
        else process_at p qs t.root)
unfolding remove_process
process-remove_process_indexed p pid qs t = elim (Option-cases (get pid t.paths_by_process)) [
  | inl e ↦ rw (e, remove_process) (ground arith)
  | inr (paths, e) ↦ rw (e, remove_process) (process-remove_paths p pid qs paths _)
]

-- In an indexed tree, `remove_process` leaves no statistics of the process at any path, and those
-- of every other process as they were.
pub process_at-remove_process :
    (p pid : ℕ) (qs : List Bytes) (t : FileTree)
    → IsIndexed t
    → process_at p qs (remove_process pid t).root
      ≡ (if nat_beq pid p then none else process_at p qs t.root)
process_at-remove_process p pid qs t h =
    ground (arith, nat_beq_iff pid p, h p qs, process-remove_process_indexed p pid qs t)

pub remove_process-IsIndexed :
    (pid : ℕ) (t : FileTree) → IsIndexed t → IsIndexed (remove_process pid t)
remove_process-IsIndexed pid t h p qs = ground (
  arith,
  h p qs,
  nat_beq_iff pid p,
  process-remove_process_indexed p pid qs t,
  process_at-remove_process p pid qs t h,
  paths-remove_process p pid t,
)

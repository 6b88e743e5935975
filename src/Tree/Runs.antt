-- ===== src/Tree/Runs.antt =====
-- Every tree that the program can build: any sequence of its operations, from the empty tree.
use ncda.Base.{
  ℕ, ◌≡◌, refl, none, List, [], ◌∷◌, Bytes, if◌then◌else◌, nat_beq, Option-cases, inl, inr,
  path_components, arith, list_eq, nat_eq,
}
use ncda.Base.HashMap.{get}
use ncda.Stats.{NodeStats, zero_stats}
use ncda.Tree.{
  NodeInfo, FileTree, new, record_stats, remove_process, remove_paths, reset, forget, forget_path,
}
use ncda.Tree.View.{view, view-update_node}
use ncda.Tree.Counters.{IsAggregated}
use ncda.Tree.Totals.{new-IsAggregated, record_stats-IsAggregated, remove_process-IsAggregated}
use ncda.Tree.Walk.{stats_at, agg_stats_at, process_at}
use ncda.Tree.Index.{
  IsIndexed, new-IsIndexed, record_stats-IsIndexed, remove_process-IsIndexed,
  process_at-remove_process,
}

pub data Call : Type 0 where
  record_call : Bytes → ℕ → NodeStats → Call
  remove_call : ℕ → Call
  reset_call : Call

unfoldable pub step : FileTree → Call → FileTree
step t (record_call path pid delta) = record_stats path pid delta t
step t (remove_call pid) = remove_process pid t
step t reset_call = reset t

unfoldable pub run : FileTree → List Call → FileTree
run t [] = t
run t (c ∷ calls) = run (step t c) calls

module _ {P : FileTree → Type 0} (keep : (t : FileTree) (c : Call) → P t → P (step t c)) where
  run_induction : (calls : List Call) (t : FileTree) → P t → P (run t calls)
  unfolding run
  run_induction [] t h = h
  run_induction (c ∷ calls) t h = run_induction calls (step t c) (keep t c h)

step-IsAggregated : (t : FileTree) (c : Call) → IsAggregated t.root → IsAggregated (step t c).root
unfolding step reset
step-IsAggregated t (record_call path pid delta) h = record_stats-IsAggregated path pid delta t h
step-IsAggregated t (remove_call pid) h = remove_process-IsAggregated pid t h
step-IsAggregated t reset_call h = new-IsAggregated

-- Whatever was recorded, removed and reset, in any order, the aggregate statistics of every node of
-- the tree are the saturating sum of its direct statistics and its children's aggregates.
pub run-IsAggregated : (calls : List Call) → IsAggregated (run new calls).root
run-IsAggregated calls =
    run_induction {P = λ t. IsAggregated t.root} step-IsAggregated calls new new-IsAggregated

step-IsIndexed : (t : FileTree) (c : Call) → IsIndexed t → IsIndexed (step t c)
unfolding step reset
step-IsIndexed t (record_call path pid delta) h = record_stats-IsIndexed path pid delta t h
step-IsIndexed t (remove_call pid) h = remove_process-IsIndexed pid t h
step-IsIndexed t reset_call h = new-IsIndexed

run-IsIndexed : (calls : List Call) → IsIndexed (run new calls)
run-IsIndexed calls = run_induction {P = IsIndexed} step-IsIndexed calls new new-IsIndexed

-- After any sequence of operations, `remove_process` leaves no statistics of the process at any
-- path, and those of every other process as they were.
pub process_at-remove_process-run :
    (calls : List Call) (p pid : ℕ) (qs : List Bytes)
    → process_at p qs (remove_process pid (run new calls)).root
      ≡ (if nat_beq pid p then none else process_at p qs (run new calls).root)
process_at-remove_process-run calls p pid qs =
    process_at-remove_process p pid qs (run new calls) (run-IsIndexed calls)

module _ {A : Type 0} (f : NodeInfo → A) (z : A) (pid : ℕ)
    (kept : (i : NodeInfo) → f (forget pid i) ≡ f i) where
  view-remove_paths :
      (qs : List Bytes) (paths : List Bytes) (t : FileTree)
      → view f z qs (remove_paths pid paths t).root ≡ view f z qs t.root
  unfolding remove_paths
  view-remove_paths qs [] t = refl
  view-remove_paths qs (path ∷ paths) t = rw (view-remove_paths qs paths (forget_path pid path t)) (
      ground (
        arith,
        view-update_node f z (λ (a : A). a) (forget pid) refl kept (path_components path) qs t.root,
      ))

  view-remove_process :
      (qs : List Bytes) (t : FileTree)
      → view f z qs (remove_process pid t).root ≡ view f z qs t.root
  unfolding remove_process
  view-remove_process qs t = elim (Option-cases (get pid t.paths_by_process)) [
    | inl e ↦ rw (e, remove_process) refl
    | inr (paths, e) ↦ rw (e, remove_process) (view-remove_paths qs paths _)
  ]

-- The end of a process does not change what was counted for its files and directories.
pub counters-remove_process :
    (pid : ℕ) (qs : List Bytes) (t : FileTree)
    → (stats_at qs (remove_process pid t).root ≡ stats_at qs t.root)
      × (agg_stats_at qs (remove_process pid t).root ≡ agg_stats_at qs t.root)
counters-remove_process pid qs t =
    unfold stats_at agg_stats_at in
    (
      view-remove_process (λ i. i.stats) zero_stats pid (λ i. refl) qs t,
      view-remove_process (λ i. i.agg_stats) zero_stats pid (λ i. refl) qs t,
    )

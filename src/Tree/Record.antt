-- ===== src/Tree/Record.antt =====
-- What `record_stats` changes in the three tables that a tree stands for, by path, and in the index.
use ncda.Base.{
  is_some, unwrap_or, ℕ, ◌≡◌, true, not, ◌&&◌, some, List, [], Bytes, is_empty, if◌then◌else◌, ◌==◌,
  nat_beq, nat_eq, list_eq, list_beq_iff, arith, path_components, nat_beq_iff,
}
use ncda.Base.HashMap.{get, get-insert}
use ncda.Stats.{NodeStats, accumulate}
use ncda.Tree.{visit_node, walk, FileTree, record_stats, index_path, set_insert}
use ncda.Tree.Walk.{
  stats_at, agg_stats_at, process_at, is_prefix, add_delta, stats-visit_node, stats-walk,
  process-walk, process-visit_node, agg_stats-visit_node, agg_stats-walk, is_prefix_empty,
  first-walk,
}

module _ (path : Bytes) (pid : ℕ) (delta : NodeStats) (t : FileTree) where
  pub root-record_stats : (record_stats path pid delta t).root ≡ (
      if is_empty (path_components path)
      then t.root
      else (walk (path_components path) pid delta (visit_node true delta t.root)).0)
  unfolding record_stats index_path
  root-record_stats = ground arith

  -- The direct statistics take the delta at the path itself and nowhere else. A path with no
  -- component records nothing.
  pub stats_at-record_stats :
      (qs : List Bytes)
      → stats_at qs (record_stats path pid delta t).root ≡ (
          if not (is_empty qs) && qs == path_components path
          then accumulate (stats_at qs t.root) delta
          else stats_at qs t.root)
  stats_at-record_stats qs = rw root-record_stats (
      ground (
        arith,
        list_beq_iff qs (path_components path),
        stats-walk pid delta (path_components path) qs (visit_node true delta t.root),
        stats-visit_node true delta qs t.root,
      ))

  -- The aggregates take the delta at the path and at each of its ancestors, the root among them.
  pub agg_stats_at-record_stats :
      (qs : List Bytes)
      → agg_stats_at qs (record_stats path pid delta t).root ≡ (
          if not (is_empty (path_components path)) && is_prefix qs (path_components path)
          then accumulate (agg_stats_at qs t.root) delta
          else agg_stats_at qs t.root)
  agg_stats_at-record_stats qs = rw root-record_stats (
      ground (
        arith,
        is_prefix_empty qs (path_components path),
        agg_stats-walk pid delta (path_components path) qs (visit_node true delta t.root),
        agg_stats-visit_node true delta qs t.root,
      ))

  -- The statistics of a process take the delta at the path, for that process.
  pub process_at-record_stats :
      (p : ℕ) (qs : List Bytes)
      → process_at p qs (record_stats path pid delta t).root ≡ (
          if not (is_empty qs) && qs == path_components path && nat_beq pid p
          then some (add_delta delta (process_at p qs t.root))
          else process_at p qs t.root)
  process_at-record_stats p qs = rw root-record_stats (
      ground (
        arith,
        list_beq_iff qs (path_components path),
        process-walk p pid delta (path_components path) qs (visit_node true delta t.root),
        process-visit_node p true delta qs t.root,
      ))

  -- The index takes the path at the first activity of the process there.
  pub paths-record_stats :
      (p : ℕ)
      → get p (record_stats path pid delta t).paths_by_process ≡ (
          if not (is_empty (path_components path))
            && nat_beq pid p
            && not (is_some (process_at pid (path_components path) t.root))
          then some (set_insert path (unwrap_or (get p t.paths_by_process) []))
          else get p t.paths_by_process)
  unfolding record_stats index_path
  paths-record_stats p = ground (
    arith,
    nat_beq_iff pid p,
    first-walk pid delta (path_components path) (visit_node true delta t.root),
    process-visit_node pid true delta (path_components path) t.root,
    get-insert pid p (set_insert path (unwrap_or (get pid t.paths_by_process) []))
        t.paths_by_process,
  )

-- ===== src/Tree/Examples.antt =====
-- Runs of the tree at concrete inputs, after the tests of ncda/src/model.rs.
use ncda.Base.{
  ◌≡◌, refl, not, ◌&&◌, is_empty, none, some, List, [], ◌∷◌, Bytes, if◌then◌else◌, nat_beq,
  path_components, ◌==◌, list_eq, nat_eq,
}
use ncda.Stats.{NodeStats, read_op, write_op, accumulate, for_operations}
use ncda.Tree.{
  FileTree, new, record_stats, record_op, remove_process, touch_leaf, visit, walk, new_node,
  child_get, child_entry, child_update, update_node, get_node, index_path, release_path,
  remove_paths,
}
use ncda.Tree.Counters.{IsAggregated, recomputed_aggregate}
use ncda.Tree.Walk.{stats_at, agg_stats_at, process_at, is_prefix, add_delta}
use ncda.Tree.Record
use ncda.Tree.Runs
use ncda.Tree.Runs.{Call, record_call, remove_call, step, run}

program : Unit {0}
unfolding record_stats record_op remove_process touch_leaf visit walk new_node child_get child_entry
    child_update update_node get_node index_path release_path remove_paths step run accumulate
    for_operations recomputed_aggregate stats_at new
program = tt

abbrev path_a : Bytes
path_a = b'/' ∷ b'a' ∷ []

abbrev path_ab : Bytes
path_ab = b'/' ∷ b'a' ∷ b'/' ∷ b'b' ∷ []

abbrev component_a : Bytes
component_a = b'a' ∷ []

abbrev component_b : Bytes
component_b = b'b' ∷ []

abbrev read_delta : NodeStats
unfolding for_operations
read_delta = for_operations read_op 5 1 7 7

abbrev write_delta : NodeStats
unfolding for_operations
write_delta = for_operations write_op 11 1 13 13

abbrev calls : List Call
calls = record_call path_a 1 read_delta ∷ record_call path_ab 2 write_delta ∷ remove_call 1 ∷ []

abbrev two_files : FileTree
two_files = run new (record_call path_a 1 read_delta ∷ record_call path_ab 2 write_delta ∷ [])

-- `direct_and_descendant_deltas_are_not_double_counted`
direct_and_descendant :
    ((stats_at (component_a ∷ []) two_files.root).read_bytes ≡ 5)
    × ((agg_stats_at (component_a ∷ []) two_files.root).write_bytes ≡ 11)
    × (process_at 2 (component_a ∷ []) two_files.root ≡ none)
unfolding program agg_stats_at process_at
direct_and_descendant = (refl, refl, refl)

removed_index :
    ((run new calls).paths_by_process ≡ (2, path_ab ∷ []) ∷ [])
    × ((run new calls).active_paths ≡ (path_ab, 1) ∷ [])
unfolding program
removed_index = (refl, refl)

run-IsAggregated_example : IsAggregated (run new calls).root
run-IsAggregated_example = Runs.run-IsAggregated calls

process_at-remove_process-run_example :
    process_at 2 (component_a ∷ component_b ∷ []) (remove_process 2 (run new calls)).root ≡ (
      if nat_beq 2 2
      then none
      else process_at 2 (component_a ∷ component_b ∷ []) (run new calls).root)
process_at-remove_process-run_example =
    Runs.process_at-remove_process-run calls 2 2 (component_a ∷ component_b ∷ [])

counters-remove_process_example :
    (stats_at (component_a ∷ []) (remove_process 1 two_files).root
      ≡ stats_at (component_a ∷ []) two_files.root)
    × (agg_stats_at (component_a ∷ []) (remove_process 1 two_files).root
        ≡ agg_stats_at (component_a ∷ []) two_files.root)
counters-remove_process_example = Runs.counters-remove_process 1 (component_a ∷ []) two_files

stats_at-record_stats_example :
    stats_at (component_a ∷ []) (record_stats path_a 3 read_delta two_files).root ≡ (
      if not (is_empty (component_a ∷ [])) && (component_a ∷ []) == path_components path_a
      then accumulate (stats_at (component_a ∷ []) two_files.root) read_delta
      else stats_at (component_a ∷ []) two_files.root)
stats_at-record_stats_example =
    Record.stats_at-record_stats path_a 3 read_delta two_files (component_a ∷ [])

agg_stats_at-record_stats_example :
    agg_stats_at (component_a ∷ []) (record_stats path_ab 3 read_delta two_files).root ≡ (
      if not (is_empty (path_components path_ab))
        && is_prefix (component_a ∷ []) (path_components path_ab)
      then accumulate (agg_stats_at (component_a ∷ []) two_files.root) read_delta
      else agg_stats_at (component_a ∷ []) two_files.root)
agg_stats_at-record_stats_example =
    Record.agg_stats_at-record_stats path_ab 3 read_delta two_files (component_a ∷ [])

process_at-record_stats_example :
    process_at 1 (component_a ∷ []) (record_stats path_a 1 read_delta two_files).root ≡ (
      if not (is_empty (component_a ∷ []))
        && (component_a ∷ []) == path_components path_a
        && nat_beq 1 1
      then some (add_delta read_delta (process_at 1 (component_a ∷ []) two_files.root))
      else process_at 1 (component_a ∷ []) two_files.root)
process_at-record_stats_example =
    Record.process_at-record_stats path_a 1 read_delta two_files 1 (component_a ∷ [])

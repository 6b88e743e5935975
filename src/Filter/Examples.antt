-- ===== src/Filter/Examples.antt =====
-- Runs of the filter language at concrete inputs.
use ncda.Base.{
  ◌≡◌, refl, some, true, false, [], ◌∷◌, Bytes, All, arith, ascii, if◌then◌else◌, any, nat_beq,
  split_whitespace, words_from, trim, decimal, decimal_from, parse_u32, unsigned_digits,
  digits_from, nat_eq,
}
use ncda.Base.HashMap.{contains_key}
use ncda.Stats.{zero_stats, NodeStats, total_ops, accumulate, for_operations, read_op}
use ncda.Tree.{FileTree, TreeNode, node, nil, cons, info}
use ncda.Process.{ProcessTable}
use ncda.Filter.{
  FilterQuery, path_term, pid_term, process_term, ok, err, parse, parse_terms, parse_term,
  parse_field, parse_pid, push_term, filtered_stats, matches_activity, matches_term, matching_pids,
  has_no_terms, visit, insert_matching, add_matching,
}
use ncda.Filter.Activity.{activities, IsActive}
use ncda.Filter.Totals
use ncda.Filter.Matching
use ncda.Filter.Parsing

program : Unit {0}
unfolding parse parse_terms parse_term parse_field parse_pid push_term parse_u32 unsigned_digits
    digits_from split_whitespace words_from trim decimal decimal_from filtered_stats
    matches_activity matches_term matching_pids visit insert_matching add_matching activities
    accumulate total_ops for_operations
program = tt

-- The test inputs are lower case.
abbrev same : Bytes → Bytes
same s = s

combined_example :
    parse same (ascii "path:/var pid:42 proc:post")
    ≡ ok (record {
      raw = ascii "path:/var pid:42 proc:post";
      terms = path_term (ascii "/var") ∷ pid_term 42 ∷ process_term (ascii "post") ∷ [];
    })
unfolding program
combined_example = refl

unknown_example : parse same (ascii "owner:root") ≡ err (ascii "unknown filter field 'owner'")
unfolding program
unknown_example = refl

parse-pid_query_example :
    parse same (Parsing.pid_query 4242)
    ≡ ok (record { raw = trim (Parsing.pid_query 4242); terms = pid_term 4242 ∷ [] })
parse-pid_query_example = Parsing.parse-pid_query same 4242 (omega arith)

abbrev read_seven : NodeStats
read_seven = for_operations read_op 7 1 0 0

-- /var, where processes 10 and 20 read b.
abbrev file : TreeNode
file =
    node
      (record {
        name = ascii "b";
        is_dir = false;
        stats = zero_stats;
        agg_stats = zero_stats;
        per_process = (10, read_seven) ∷ (20, read_seven) ∷ [];
      })
      nil

abbrev directory : TreeNode
directory =
    node
      (record {
        name = ascii "var";
        is_dir = true;
        stats = zero_stats;
        agg_stats = zero_stats;
        per_process = [];
      })
      (cons (ascii "b") file nil)

abbrev query : FilterQuery
query = record { raw = ascii "pid:20"; terms = pid_term 20 ∷ [] }

abbrev table : ProcessTable
table = record { processes = [] }

abbrev file_tree : FileTree
file_tree = record { root = directory; active_paths = []; paths_by_process = [] }

filtered_example : filtered_stats same query table (ascii "/var") directory ≡ some read_seven
unfolding program
filtered_example = refl

directory-IsActive : All IsActive (activities (ascii "/var") directory)
unfolding program
directory-IsActive = (omega arith, (omega arith, tt))

filtered_stats-shown_example : filtered_stats same query table (ascii "/var") directory ≡ (
    if has_no_terms query
    then some (info directory).agg_stats
    else Totals.shown same query table (activities (ascii "/var") directory))
filtered_stats-shown_example =
    Totals.filtered_stats-shown same query table (ascii "/var") directory directory-IsActive

matching_pids-has_match_example : any (nat_beq 20) (matching_pids same file_tree query table) ≡ (
    if has_no_terms query
    then contains_key 20 table.processes
    else Matching.has_match same query table 20 (activities (ascii "/") file_tree.root))
matching_pids-has_match_example = Matching.matching_pids-has_match same query table file_tree 20

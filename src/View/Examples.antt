-- ===== src/View/Examples.antt =====
-- Keys, rows and selections at concrete inputs.
use ncda.Base.{
  inl, Option, ℕ, max, ◌≡◌, refl, some, none, true, false, [], ◌∷◌, Bytes, All, arith, ascii,
  is_empty, nat_beq, nat_eq, list_eq, split_whitespace, words_from, parse_u32, unsigned_digits,
  digits_from,
}
use ncda.Base.Order.{count}
use ncda.View.Rows.Comparing.{Chain, RowLe, ProcessLe}
use ncda.Stats.{
  zero_stats, NodeStats, total_ops, total_bytes, accumulate, for_operations, read_op,
  avg_latency_ns,
}
use ncda.Tree.{FileTree, TreeNode, node, nil, cons, children, get_node}
use ncda.Process.{ProcessInfo, ProcessTable}
use ncda.App.{AppState, new}
use ncda.Filter.{pid_term, ok, err, parse_term, parse_field, parse_pid, filtered_stats, no_query}
use ncda.View.{
  SortBy, ProcessSort, ViewState, initial_view, cwd_path, reconcile_process_selection,
  select_process, select_at_cursor,
}
use ncda.View.Rows.{
  FlatRow, column_order, name_order, child_rows, visible_rows, flatten, flatten_recurse,
  process_column, process_order, sorted, values,
}
use ncda.View.Rows.Sorted
use ncda.View.Rows.Lines
use ncda.View.Keys.{char, KeyCode, down, enter, KeyEvent, Screen, Outcome, goes_on, last_row}
use ncda.View.Files.{file_key}
use ncda.View.Input.{handle_key, handle_focused}
use ncda.View.Bounds.{IsScreen, IsInBounds}
use ncda.View.Bounds.Handling
use ncda.View.Session.{Round, shown_paths, screen_of, reconcile_file_selection}
use ncda.View.Selection
use ncda.View.Presses
use ncda.View.Errors
use ncda.View.Typing
use ncda.View.Layout

program : Unit {0}
unfolding total_ops total_bytes avg_latency_ns accumulate for_operations parse_term parse_field
    parse_pid parse_u32 unsigned_digits digits_from split_whitespace words_from filtered_stats
    cwd_path reconcile_process_selection select_process select_at_cursor column_order name_order
    child_rows visible_rows flatten flatten_recurse process_column process_order sorted last_row
    file_key handle_key handle_focused shown_paths screen_of get_node
program = tt

abbrev same : Bytes → Bytes
same s = s

abbrev reads : ℕ → NodeStats
reads bytes = for_operations read_op bytes 1 0 0

abbrev file : Bytes → ℕ → TreeNode
file name bytes =
    node
      (record {
        name = name;
        is_dir = false;
        stats = reads bytes;
        agg_stats = reads bytes;
        per_process = (10, reads bytes) ∷ [];
      })
      nil

-- The root, with files a and b.
abbrev root : TreeNode
root =
    node
      (record {
        name = ascii "/";
        is_dir = true;
        stats = zero_stats;
        agg_stats = reads 12;
        per_process = [];
      })
      (cons (ascii "a") (file (ascii "a") 5) (cons (ascii "b") (file (ascii "b") 7) nil))

abbrev file_tree : FileTree
file_tree = record { root = root; active_paths = []; paths_by_process = [] }

abbrev process : ℕ → ℕ → ProcessInfo
process pid bytes = record { pid = pid; comm = ascii "cp"; container = none; stats = reads bytes }

abbrev table : ProcessTable
table = record { processes = (20, process 20 5) ∷ (10, process 10 12) ∷ [] }

abbrev state : AppState
state = record (new 10 []) { tree = file_tree; process_table = table }

-- The larger file is first.
rows_example : shown_paths same state initial_view ≡ ascii "/b" ∷ ascii "/a" ∷ []
unfolding program
rows_example = refl

sorted-ProcessLe_example :
    Chain (ProcessLe ProcessSort.by_pid false) (sorted ProcessSort.by_pid false table)
    × (count (λ (i : ProcessInfo). nat_beq i.pid 10) (sorted ProcessSort.by_pid false table)
        ≡ count (λ (i : ProcessInfo). nat_beq i.pid 10) (values table.processes))
sorted-ProcessLe_example =
    Sorted.sorted-ProcessLe ProcessSort.by_pid false table (λ (i : ProcessInfo). nat_beq i.pid 10)

visible_rows-RowLe_example :
    Chain
      (RowLe SortBy.total_bytes true)
      (visible_rows same no_query table file_tree [] SortBy.total_bytes true)
    × (count
          (λ (row : FlatRow). row.is_dir)
          (visible_rows same no_query table file_tree [] SortBy.total_bytes true)
        ≡ count
            (λ (row : FlatRow). row.is_dir)
            (child_rows same no_query table (cwd_path []) (children root)))
unfolding get_node
visible_rows-RowLe_example =
    Sorted.visible_rows-RowLe same no_query table file_tree [] root SortBy.total_bytes true
      (λ (row : FlatRow). row.is_dir) refl

flatten-IsLine_example :
    All Lines.IsLine (flatten same no_query table [] SortBy.total_bytes true file_tree)
flatten-IsLine_example =
    Lines.flatten-IsLine same no_query table [] SortBy.total_bytes true file_tree

abbrev screen : Screen
screen = record {
  flat_child_count = 2;
  tree_lines = [];
  process_pids = 10 ∷ 20 ∷ [];
  page_height = 5;
}

abbrev press_down : KeyEvent
press_down = record { code = down; control = false; alt = false }

screen-IsScreen : IsScreen screen
screen-IsScreen = record { pids = (omega arith, (omega arith, tt)); lines = tt }

initial-IsInBounds : IsInBounds screen initial_view
unfolding last_row
initial-IsInBounds = record { cursor = omega arith; process_cursor = omega arith }

handle_key-LandsOn_example :
    (outcome : Outcome) × ((handle_key same press_down screen initial_view ≡ some outcome)
      × IsInBounds screen outcome.view)
handle_key-LandsOn_example =
    Handling.handle_key-LandsOn screen same press_down initial_view screen-IsScreen
      initial-IsInBounds

-- Process 20 stays selected when the rows swap.
reconcile_process_selection-IsReselected_example :
    (view' : ViewState) × ((reconcile_process_selection
          (20 ∷ 10 ∷ [])
          (record initial_view { process_cursor = 1; selected_process = some 20 })
        ≡ some view')
      × Selection.IsReselected
          (20 ∷ 10 ∷ [])
          1
          (some 20)
          view'.process_cursor
          view'.selected_process)
reconcile_process_selection-IsReselected_example =
    Selection.reconcile_process_selection-IsReselected (20 ∷ 10 ∷ [])
      (record initial_view { process_cursor = 1; selected_process = some 20 }) refl

some_rows : is_empty (shown_paths same state initial_view) ≡ false
unfolding program
some_rows = refl

reconcile_file_selection-IsReselected_example :
    (result : ViewState × Option Bytes) × ((reconcile_file_selection same state initial_view
          (some (ascii "/a"))
        ≡ some result)
      × Selection.IsReselected
          (shown_paths same state initial_view)
          0
          (some (ascii "/a"))
          result.0.cursor
          result.1)
reconcile_file_selection-IsReselected_example =
    Selection.reconcile_file_selection-IsReselected same state initial_view (some (ascii "/a"))
      some_rows

-- Down, a tick without a key, and then the selected row is entered.
abbrev round : KeyCode → Round
round code = record {
  state = state;
  changed = state;
  last = state;
  page_height = 5;
  key = some (record { code = code; control = false; alt = false });
}

abbrev tick : Round
tick = record (round down) { key = none }

-- The editor holds a process number that is none.
abbrev editing : ViewState
editing = record initial_view { filter_input = some (ascii "pid:7 pid:x") }

two_words : split_whitespace (ascii "pid:7 pid:x") ≡ ascii "pid:7" ∷ ascii "pid:x" ∷ []
unfolding program
two_words = refl

first_word : parse_term same (ascii "pid:7") ≡ ok (pid_term 7)
unfolding program
first_word = refl

abbrev message : Bytes
message = ascii "invalid PID in filter term 'pid:x'"

second_word : parse_term same (ascii "pid:x") ≡ err message
unfolding program
second_word = refl

handle_key-first_error_example :
    handle_key same (record { code = enter; control = false; alt = false }) screen editing
    ≡ some (goes_on (record editing { filter_error = some message }))
handle_key-first_error_example =
    Errors.handle_key-first_error same screen editing false false (ascii "pid:7 pid:x")
      (ascii "pid:7" ∷ []) (ascii "pid:x") message [] refl refl two_words
      ((pid_term 7, first_word), tt) second_word

rendered_width-for_width_example : Layout.rendered_width (Layout.for_width 80) ≡ max 80 13
rendered_width-for_width_example = Layout.rendered_width-for_width 80

-- The letter r, while the editor holds p: the counters are reset, and the text stays.
abbrev typing : ViewState
typing = record initial_view { filter_input = some (ascii "p") }

letter_example :
    handle_key same (record { code = char (ascii "r"); control = false; alt = false }) screen typing
    ≡ some (record { quits = false; resets = true; view = typing })
unfolding program
letter_example = refl

handle_key-IsFree_example :
    (outcome : Outcome) × ((handle_key same
          (record { code = char (ascii "r"); control = false; alt = false })
          screen
          typing
        ≡ some outcome)
      × Typing.IsFree outcome.view)
handle_key-IsFree_example =
    Typing.handle_key-IsFree same (record { code = char (ascii "r"); control = false; alt = false })
      screen typing (ascii "p") (inl (114, refl)) refl
      (((λ e. omega (arith, e)), (λ e. omega (arith, e))), tt)

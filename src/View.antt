-- ===== src/View.antt =====
-- The state of the interface: `ViewState` of ncda/src/tui/app.rs, `SortBy` of ncda/src/model.rs and
-- `ProcessSort` of ncda/src/process.rs.
pub mod Rows
pub mod Keys
pub mod Layout
mod Editor
mod Processes
mod Files
pub mod Input
pub mod Bounds
pub mod Session
pub mod Selection
pub mod Presses
pub mod Errors
pub mod Typing
mod Examples
use ncda.Base.{
  ℕ, suc, ◌-◌, Bool, true, false, Option, none, some, List, [], ◌∷◌, ◌++◌, Bytes, is_empty, length,
  get_elem?, join, min, ascii, nat_beq, if◌then◌else◌,
}
use ncda.Filter.{FilterQuery, no_query}

pub data ViewMode : Type 0 where
  flat tree : ViewMode

pub data PaneFocus : Type 0 where
  files processes : PaneFocus

pub data SortBy : Type 0 where
  total_bytes read_bytes write_bytes frequency latency name : SortBy

pub data ProcessSort : Type 0 where
  by_total_bytes by_read_bytes by_write_bytes by_operations by_latency by_pid by_name : ProcessSort

-- `SortBy::next` and `ProcessSort::next`
pub next_sort : SortBy → SortBy
next_sort total_bytes = read_bytes
next_sort read_bytes = write_bytes
next_sort write_bytes = frequency
next_sort frequency = latency
next_sort latency = name
next_sort name = total_bytes

pub next_process_sort : ProcessSort → ProcessSort
next_process_sort by_total_bytes = by_read_bytes
next_process_sort by_read_bytes = by_write_bytes
next_process_sort by_write_bytes = by_operations
next_process_sort by_operations = by_latency
next_process_sort by_latency = by_pid
next_process_sort by_pid = by_name
next_process_sort by_name = by_total_bytes

pub record ViewState : Type 0 where
  pub mode : ViewMode
  pub cwd : List Bytes
  pub cursor : ℕ
  pub scroll_offset : ℕ
  -- a set of paths
  pub expanded : List (List Bytes)
  pub sort_by : SortBy
  pub sort_desc : Bool
  pub show_processes : Bool
  pub focus : PaneFocus
  pub process_cursor : ℕ
  pub selected_process : Option ℕ
  pub process_sort : ProcessSort
  pub process_sort_desc : Bool
  pub show_help : Bool
  pub filter : FilterQuery
  pub filter_input : Option Bytes
  pub filter_error : Option Bytes

-- `ViewState::new`
abbrev pub initial_view : ViewState
initial_view = record {
  mode = flat;
  cwd = [];
  cursor = 0;
  scroll_offset = 0;
  expanded = [];
  sort_by = total_bytes;
  sort_desc = true;
  show_processes = false;
  focus = files;
  process_cursor = 0;
  selected_process = none;
  process_sort = by_total_bytes;
  process_sort_desc = true;
  show_help = false;
  filter = no_query;
  filter_input = none;
  filter_error = none;
}

-- `iter().position(..)`, from an index on
abbrev pub position_from {ℓ} : {A : Type ℓ} → (A → Bool) → ℕ → List A → Option ℕ
position_from p i [] = none
position_from p i (x ∷ xs) = let rest = position_from p (suc i) xs in if p x then some i else rest

abbrev pub position {ℓ} : {A : Type ℓ} → (A → Bool) → List A → Option ℕ
position p xs = position_from p 0 xs

-- `reconcile_process_selection`: the cursor's fallback, and the search for the selected process. The
-- fallback panics, which is `none`, where the cursor is on no process.
unfoldable pub select_at_cursor : List ℕ → ViewState → Option ViewState
select_at_cursor pids view =
    let cursor = min view.process_cursor (length pids - 1) in
    elim (get_elem? pids cursor) [
      | none ↦ none
      | some pid ↦ some (record view { process_cursor = cursor; selected_process = some pid })
    ]

unfoldable pub select_process : List ℕ → Option ℕ → ViewState → Option ViewState
select_process pids none view = select_at_cursor pids view
select_process pids (some selected) view = elim (position (λ pid. nat_beq pid selected) pids) [
  | some index ↦ some (record view { process_cursor = index })
  | none ↦ select_at_cursor pids view
]

unfoldable pub reconcile_process_selection : List ℕ → ViewState → Option ViewState
reconcile_process_selection pids view =
    if is_empty pids
    then some (record view { process_cursor = 0; selected_process = none })
    else select_process pids view.selected_process view

unfoldable pub cwd_path : List Bytes → Bytes
cwd_path cwd = if is_empty cwd then ascii "/" else b'/' ∷ join b'/' cwd

-- ===== src/View/Session.antt =====
-- A key press in the event loop of ncda/src/tui/mod.rs, and the selection that the loop keeps over
-- the files' rows. The height of a page is given; each lock of the state may see another state.
use ncda.Base.{
  ℕ, ◌-◌, Bool, true, false, not, ◌&&◌, ◌||◌, is_some, any, Option, none, some, List, [], ◌∷◌, ◌++◌,
  Bytes, is_empty, length, get_elem?, filter, map, min, nat_beq, ascii, if◌then◌else◌, ◌==◌, nat_eq,
  list_eq,
}
use ncda.App.{AppState, reset}
use ncda.Process.{ProcessInfo}
use ncda.Filter.{matching_pids}
use ncda.View.{
  ViewMode, flat, tree, files, processes, ViewState, position, reconcile_process_selection,
}
use ncda.View.Rows.{FlatRow, TreeLine, visible_rows, flatten, sorted}
use ncda.View.Keys.{
  KeyCode, char, up, down, home, end_key, page_up, page_down, enter, right, left, backspace,
  KeyEvent, Screen, Outcome,
}
use ncda.View.Input.{handle_key}

-- A step that panics, `none`, ends the loop.
infixl 5 ◌>>=◌
abbrev pub ◌>>=◌ : {A B : Type 0} → Option A → (A → Option B) → Option B
none >>= f = none
some a >>= f = f a

pub is_flat_drill_key : KeyCode → Bool
is_flat_drill_key enter = true
is_flat_drill_key right = true
is_flat_drill_key (char c) = c == ascii "l"
is_flat_drill_key _ = false

pub is_file_navigation_key : KeyCode → Bool
is_file_navigation_key up = true
is_file_navigation_key down = true
is_file_navigation_key left = true
is_file_navigation_key right = true
is_file_navigation_key home = true
is_file_navigation_key end_key = true
is_file_navigation_key page_up = true
is_file_navigation_key page_down = true
is_file_navigation_key backspace = true
is_file_navigation_key enter = true
is_file_navigation_key (char c) =
    c == ascii "j"
    || c == ascii "k"
    || c == ascii "g"
    || c == ascii "G"
    || c == ascii "h"
    || c == ascii "l"
is_file_navigation_key _ = false

-- The index of the selected path, when it is still on the screen.
unfoldable pub selected_index : List Bytes → Option Bytes → Option ℕ
selected_index paths none = none
selected_index paths (some selected) = position (λ path. path == selected) paths

-- The row at the cursor; `none` is a panic, where there is none.
unfoldable pub select_row : List Bytes → ViewState → Option (ViewState × Option Bytes)
select_row paths view =
    let cursor = min view.cursor (length paths - 1) in
    elim (get_elem? paths cursor) [
      | none ↦ none
      | some path ↦ some (record view { cursor = cursor }, some path)
    ]

module _ (to_lowercase : Bytes → Bytes) (state : AppState) where
  -- The paths of the rows on the screen, in their order.
  unfoldable pub shown_paths : ViewState → List Bytes
  shown_paths view = elim view.mode [
    | flat ↦
        map (λ (row : FlatRow). row.path)
          (visible_rows to_lowercase view.filter state.process_table state.tree view.cwd
            view.sort_by view.sort_desc)
    | tree ↦
        map (λ (line : TreeLine). line.display_path)
          (flatten to_lowercase view.filter state.process_table view.expanded view.sort_by
            view.sort_desc state.tree)
  ]

  unfoldable pub selection_identity : ViewState → Option Bytes
  selection_identity view = get_elem? (shown_paths view) view.cursor

  unfoldable pub reconcile_file_selection :
      ViewState → Option Bytes → Option (ViewState × Option Bytes)
  reconcile_file_selection view selected =
      let paths = shown_paths view in
      if is_empty paths
      then some (record view { cursor = 0 }, none)
      else elim (selected_index paths selected) [
        | some index ↦ some (record view { cursor = index }, selected)
        | none ↦ select_row paths view
      ]

  unfoldable pub visible_processes : ViewState → List ProcessInfo
  visible_processes view =
      let matching = matching_pids to_lowercase state.tree view.filter state.process_table in
      filter (λ (process : ProcessInfo). any (nat_beq process.pid) matching)
        (sorted view.process_sort view.process_sort_desc state.process_table)

  abbrev pub process_pids : ViewState → List ℕ
  process_pids view = map (λ (process : ProcessInfo). process.pid) (visible_processes view)

  unfoldable pub screen_of : ℕ → ViewState → Screen
  screen_of page_height view = record {
    flat_child_count = length (
        visible_rows to_lowercase view.filter state.process_table state.tree view.cwd view.sort_by
          view.sort_desc);
    tree_lines =
        flatten to_lowercase view.filter state.process_table view.expanded view.sort_by
          view.sort_desc state.tree;
    process_pids = process_pids view;
    page_height = page_height;
  }

  -- Enter, right or l on a row of the flat view.
  unfoldable pub drill : ViewState → Option Bytes → ViewState × Option Bytes
  drill view selected =
      elim (get_elem?
        (visible_rows to_lowercase view.filter state.process_table state.tree view.cwd view.sort_by
          view.sort_desc)
        view.cursor) [
          | none ↦ (view, selected)
          | some row ↦
              let entered = record view { cwd = view.cwd ++ row.name ∷ []; cursor = 0 } in
              if row.is_dir then (entered, selection_identity entered) else (view, selected)
        ]

abbrev pub same_mode : ViewMode → ViewMode → Bool
same_mode flat flat = true
same_mode tree tree = true
same_mode _ _ = false

abbrev pub has_files_focus : ViewState → Bool
has_files_focus view =
    (elim view.focus [ files ↦ true | processes ↦ false ]) && not (is_some view.filter_input)

abbrev pub is_flat : ViewState → Bool
is_flat view = elim view.mode [ flat ↦ true | tree ↦ false ]

-- What a press leaves: whether the loop ends, the state when it was reset, and the selections.
pub record Pressed : Type 0 where
  pub quits : Bool
  pub reset_state : Option AppState
  pub view : ViewState
  pub selected : Option Bytes

-- What one round of the loop meets: the state up to the key, the states that the two locks after it
-- see, and the key that is pressed, if one is within the tick.
pub record Round : Type 0 where
  pub state : AppState
  pub changed : AppState
  pub last : AppState
  pub page_height : ℕ
  pub key : Option KeyEvent

module _ (to_lowercase : Bytes → Bytes) where
  -- After the handler: `old` is the view that it was given.
  unfoldable pub after_key :
      AppState → AppState → KeyEvent → ViewState → Option Bytes → Outcome → Option Pressed
  after_key changed last key old selected outcome =
      let view = outcome.view in
      let kept = if same_mode view.mode old.mode then selected else none in
      do
        (view, selected) ←
            if outcome.resets
            then some (record view { cursor = 0 }, none)
            else if has_files_focus old && is_file_navigation_key key.code
            then some (view, selection_identity to_lowercase changed view)
            else reconcile_file_selection to_lowercase changed view kept
        view ← reconcile_process_selection (process_pids to_lowercase last view) view
        some (record {
          quits = outcome.quits;
          reset_state = (if outcome.resets then some (reset changed) else none);
          view = view;
          selected = selected;
        })

  unfoldable pub press_key :
      AppState → AppState → AppState → ℕ → KeyEvent → ViewState → Option Bytes → Option Pressed
  press_key state changed last page_height key view selected =
      let screen = screen_of to_lowercase state page_height view in
      do
        old ← reconcile_process_selection screen.process_pids view
        outcome ← handle_key to_lowercase key screen old
        after_key changed last key old selected outcome

  -- The body of the loop for one press: the flat view's rows are entered before the handler.
  unfoldable pub press :
      AppState → AppState → AppState → ℕ → KeyEvent → ViewState → Option Bytes → Option Pressed
  press state changed last page_height key view selected =
      if is_flat_drill_key key.code && not view.show_help && is_flat view && has_files_focus view
      then (let (view', selected') = drill to_lowercase state view selected in
          some (record { quits = false; reset_state = none; view = view'; selected = selected' }))
      else press_key state changed last page_height key view selected

  -- One round of the loop: the selection is reconciled before the rows are drawn, and the key comes
  -- before the state changes.
  unfoldable pub turn :
      AppState → AppState → AppState → ℕ → KeyEvent → ViewState → Option Bytes → Option Pressed
  turn state changed last page_height key view selected = do
    (view, selected) ← reconcile_file_selection to_lowercase state view selected
    press state changed last page_height key view selected

  -- The loop of `run_with_shutdown`: it ends at a key that quits, or when there are no more rounds.
  unfoldable pub rounds : List Round → ViewState → Option Bytes → Option (ViewState × Option Bytes)
  rounds [] view selected = some (view, selected)
  rounds (r ∷ rest) view selected = elim r.key [
    | none ↦ elim (reconcile_file_selection to_lowercase r.state view selected) [
      | none ↦ none
      | some at ↦ rounds rest at.0 at.1
    ]
    | some key ↦ elim (turn r.state r.changed r.last r.page_height key view selected) [
      | none ↦ none
      | some pressed ↦ elim pressed.quits [
        | true ↦ some (pressed.view, pressed.selected)
        | false ↦ rounds rest pressed.view pressed.selected
      ]
    ]
  ]

-- ===== src/View/Files.antt =====
-- The files' pane: the rest of `handle_key_with_page_height` of ncda/src/tui/input.rs. A panic is
-- `none`.
use ncda.Base.{
  ℕ, ◌+◌, ◌-◌, true, false, not, ◌&&◌, Option, none, some, List, [], ◌∷◌, ◌++◌, Bytes, is_empty,
  length, get_elem?, take, any, filter, ascii, ltb, saturating_sub, if◌then◌else◌, ◌==◌, nat_eq,
  list_eq,
}
use ncda.View.{
  flat, tree, files, processes, next_sort, ViewState, position, reconcile_process_selection,
}
use ncda.View.Rows.{TreeLine}
use ncda.View.Keys.{
  KeyCode, char, up, down, home, end_key, page_up, page_down, enter, right, left, backspace, Screen,
  last_row, open_editor, advance,
}

abbrev pub remove_path : List Bytes → List (List Bytes) → List (List Bytes)
remove_path path expanded = filter (λ p. not (p == path)) expanded

abbrev pub insert_path : List Bytes → List (List Bytes) → List (List Bytes)
insert_path path expanded =
    if any (λ p. p == path) expanded then expanded else expanded ++ path ∷ []

unfoldable pub toggle_line : TreeLine → ViewState → ViewState
toggle_line line view =
    if not line.is_dir
    then view
    else if line.is_expanded
    then record view { expanded = remove_path line.path view.expanded }
    else record view { expanded = insert_path line.path view.expanded }

-- Enter, right and l. The flat view is entered by the event loop.
unfoldable pub drill_in : Screen → ViewState → ViewState
drill_in screen view = elim view.mode [
  | flat ↦ view
  | tree ↦ elim (get_elem? screen.tree_lines view.cursor) [
    | some line ↦ toggle_line line view
    | none ↦ view
  ]
]

-- `line.path[..line.path.len() - 1]`
abbrev pub parent_path : List Bytes → Option (List Bytes)
parent_path path = if is_empty path then none else some (take (length path - 1) path)

unfoldable pub go_to_parent : List TreeLine → TreeLine → ViewState → Option ViewState
go_to_parent lines line view = elim (parent_path line.path) [
  | none ↦ none
  | some parent ↦ elim (position (λ (l : TreeLine). l.path == parent) lines) [
    | some index ↦ some (record view { cursor = index })
    | none ↦ some view
  ]
]

unfoldable pub collapse_line : List TreeLine → TreeLine → ViewState → Option ViewState
collapse_line lines line view =
    if line.is_dir && line.is_expanded
    then some (record view { expanded = remove_path line.path view.expanded })
    else if ltb 0 line.depth
    then go_to_parent lines line view
    else some view

-- Left, h and backspace
unfoldable pub go_up : Screen → ViewState → Option ViewState
go_up screen view = elim view.mode [
  | flat ↦ some (
      if is_empty view.cwd
      then view
      else record view { cwd = take (length view.cwd - 1) view.cwd; cursor = 0 })
  | tree ↦ elim (get_elem? screen.tree_lines view.cursor) [
    | some line ↦ collapse_line screen.tree_lines line view
    | none ↦ some view
  ]
]

abbrev pub move_down : Screen → ViewState → ViewState
move_down screen view =
    if ltb view.cursor (last_row screen view)
    then record view { cursor = view.cursor + 1 }
    else view

abbrev pub move_up : ViewState → ViewState
move_up view = record view { cursor = saturating_sub view.cursor 1 }

unfoldable pub toggle_processes : ViewState → ViewState
toggle_processes view =
    if view.show_processes
    then record view { show_processes = false; focus = files }
    else record view { show_processes = true }

unfoldable pub file_char : Bytes → Screen → ViewState → Option ViewState
file_char c screen view =
    if c == ascii "k"
    then some (move_up view)
    else if c == ascii "j"
    then some (move_down screen view)
    else if c == ascii "g"
    then some (record view { cursor = 0 })
    else if c == ascii "G"
    then some (record view { cursor = last_row screen view })
    else if c == ascii "l"
    then some (drill_in screen view)
    else if c == ascii "h"
    then go_up screen view
    else if c == ascii "s"
    then some (record view { sort_by = next_sort view.sort_by })
    else if c == ascii "S"
    then some (record view { sort_desc = not view.sort_desc })
    else if c == ascii "/"
    then some (open_editor view)
    else if c == ascii "p"
    then some (toggle_processes view)
    else if c == ascii "P"
    then reconcile_process_selection screen.process_pids
        (record view { show_processes = true; focus = processes })
    else if c == ascii "?"
    then some (record view { show_help = true })
    else some view

unfoldable pub file_key : KeyCode → Screen → ℕ → ViewState → Option ViewState
file_key code screen page view = elim code [
  | char c ↦ file_char c screen view
  | up ↦ some (move_up view)
  | down ↦ some (move_down screen view)
  | home ↦ some (record view { cursor = 0 })
  | end_key ↦ some (record view { cursor = last_row screen view })
  | page_up ↦ some (record view { cursor = saturating_sub view.cursor page })
  | page_down ↦ some (record view { cursor = advance view.cursor page (last_row screen view) })
  | enter ↦ some (drill_in screen view)
  | right ↦ some (drill_in screen view)
  | left ↦ go_up screen view
  | backspace ↦ go_up screen view
  | _ ↦ some view
]

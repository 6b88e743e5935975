-- ===== src/View/Processes.antt =====
-- The processes' pane: `handle_process_key` of ncda/src/tui/input.rs. A panic is `none`.
use ncda.Base.{
  ℕ, ◌+◌, true, false, not, Option, none, some, List, ◌++◌, Bytes, length, get_elem?, min, max,
  ascii, decimal, saturating_sub, if◌then◌else◌, ◌==◌, nat_eq, list_eq,
}
use ncda.Filter.{FilterQuery, Parsed, ok, err, parse}
use ncda.View.{files, next_process_sort, ViewState}
use ncda.View.Keys.{
  KeyCode, char, up, down, home, end_key, page_up, page_down, enter, open_editor, advance,
}

-- The end of `handle_process_key`
abbrev pub select_cursor : List ℕ → ViewState → ViewState
select_cursor pids view = record view { selected_process = get_elem? pids view.process_cursor }

-- `FilterQuery::parse(..).unwrap()`
unfoldable pub filter_process : Parsed FilterQuery → ViewState → Option ViewState
filter_process (ok query) view = some (record view { filter = query; cursor = 0; focus = files })
filter_process (err message) view = none

abbrev pub last_pid : List ℕ → ℕ
last_pid pids = saturating_sub (length pids) 1

unfoldable pub process_char : Bytes → List ℕ → ViewState → ViewState
process_char c pids view =
    if c == ascii "P"
    then record view { focus = files }
    else if c == ascii "p"
    then record view { show_processes = false; focus = files }
    else if c == ascii "k"
    then record view { process_cursor = saturating_sub view.process_cursor 1 }
    else if c == ascii "j"
    then record view { process_cursor = min (view.process_cursor + 1) (last_pid pids) }
    else if c == ascii "g"
    then record view { process_cursor = 0 }
    else if c == ascii "G"
    then record view { process_cursor = last_pid pids }
    else if c == ascii "s"
    then record view { process_sort = next_process_sort view.process_sort }
    else if c == ascii "S"
    then record view { process_sort_desc = not view.process_sort_desc }
    else if c == ascii "/"
    then open_editor view
    else if c == ascii "?"
    then record view { show_help = true }
    else view

module _ (to_lowercase : Bytes → Bytes) where
  unfoldable pub process_enter : List ℕ → ViewState → Option ViewState
  process_enter pids view = elim (get_elem? pids view.process_cursor) [
    | some pid ↦ filter_process (parse to_lowercase (ascii "pid:" ++ decimal pid)) view
    | none ↦ some view
  ]

  unfoldable pub process_key : KeyCode → List ℕ → ℕ → ViewState → Option ViewState
  process_key code pids page view = elim code [
    | char c ↦ some (process_char c pids view)
    | up ↦ some (record view { process_cursor = saturating_sub view.process_cursor 1 })
    | down ↦ some (record view { process_cursor = min (view.process_cursor + 1) (last_pid pids) })
    | home ↦ some (record view { process_cursor = 0 })
    | end_key ↦ some (record view { process_cursor = last_pid pids })
    | page_up ↦ some (record view { process_cursor = saturating_sub view.process_cursor page })
    | page_down ↦
        some (record view { process_cursor = advance view.process_cursor page (last_pid pids) })
    | enter ↦ process_enter pids view
    | _ ↦ some view
  ]

  unfoldable pub handle_process_key : KeyCode → List ℕ → ℕ → ViewState → Option ViewState
  handle_process_key code pids page_height view =
      elim (process_key code pids (max page_height 1) view) [
        | some view' ↦ some (select_cursor pids view')
        | none ↦ none
      ]

-- ===== src/View/Input.antt =====
-- `handle_key_with_page_height` of ncda/src/tui/input.rs: the key that every part of the interface
-- takes, and the part that has the focus. A panic is `none`.
use ncda.Base.{
  true, false, ◌&&◌, ◌||◌, Option, none, some, Bytes, max, ascii, if◌then◌else◌, nat_eq, list_eq,
}
use ncda.Filter.{no_query}
use ncda.View.{ViewMode, flat, tree, files, processes, ViewState}
use ncda.View.Keys.{tab, esc, KeyEvent, Screen, is_char, Outcome, goes_on}
use ncda.View.Editor.{handle_filter_input}
use ncda.View.Processes.{handle_process_key}
use ncda.View.Files.{file_key}

abbrev pub lift : Option ViewState → Option Outcome
lift none = none
lift (some view) = some (goes_on view)

abbrev pub other_mode : ViewMode → ViewMode
other_mode flat = tree
other_mode tree = flat

unfoldable pub handle_esc : ViewState → ViewState
handle_esc view = elim view.filter_input [
  | some input ↦ record view { filter_input = none; filter_error = none }
  | none ↦ elim view.focus [
    | processes ↦ record view { focus = files }
    | files ↦ record view { filter = no_query; filter_error = none; cursor = 0 }
  ]
]

module _ (to_lowercase : Bytes → Bytes) where
  -- The key by the part of the interface that has the focus.
  unfoldable pub handle_focused : KeyEvent → Screen → ViewState → Option Outcome
  handle_focused key screen view = elim view.filter_input [
    | some input ↦ some (goes_on (handle_filter_input to_lowercase key view))
    | none ↦ elim view.focus [
      | processes ↦
          lift
            (handle_process_key to_lowercase key.code screen.process_pids screen.page_height view)
      | files ↦ lift (file_key key.code screen (max screen.page_height 1) view)
    ]
  ]

  -- `handle_key_with_page_height`
  unfoldable pub handle_key : KeyEvent → Screen → ViewState → Option Outcome
  handle_key key screen view =
      if view.show_help
      then some (goes_on (record view { show_help = false }))
      else if is_char (ascii "q") key.code || is_char (ascii "c") key.code && key.control
      then some (record { quits = true; resets = false; view = view })
      else if is_char (ascii "r") key.code
      then some (record { quits = false; resets = true; view = view })
      else elim key.code [
        | tab ↦ some (goes_on (record view { mode = other_mode view.mode; cursor = 0 }))
        | esc ↦ some (goes_on (handle_esc view))
        | _ ↦ handle_focused key screen view
      ]

-- ===== src/View/Bounds/Handling.antt =====
-- Every key keeps the cursors on a row, and none of them panics.
use ncda.Base.{
  ◌≡◌, refl, ap, Bool, true, false, not, Option, none, some, [], ◌++◌, Bytes, arith, ascii,
  if◌then◌else◌, max, ◌==◌, ◌&&◌, ◌||◌, list_eq, nat_eq, unwrap_or,
}
use ncda.Filter.{FilterQuery, no_query, Parsed, ok, err, parse}
use ncda.View.{PaneFocus, files, processes, ViewState}
use ncda.View.Keys.{
  KeyCode, char, tab, esc, up, down, home, end_key, page_up, page_down, enter, right, left,
  backspace, other, KeyEvent, Screen, pop_char, edit, last_row, is_char, Outcome, goes_on,
}
use ncda.View.Editor.{apply_filter, handle_filter_input}
use ncda.View.Processes.{handle_process_key}
use ncda.View.Files.{file_key}
use ncda.View.Input.{lift, other_mode, handle_esc, handle_focused, handle_key}
use ncda.View.Bounds.{IsScreen, IsInBounds, Lands, branch}
use ncda.View.Bounds.Files.{file_key-Lands}
use ncda.View.Bounds.Processes.{handle_process_key-Lands}

module _ (screen : Screen) where
  LandsOn : Option Outcome → Type 0
  LandsOn o = (outcome : Outcome) × ((o ≡ some outcome) × IsInBounds screen outcome.view)

  lands_on : (outcome : Outcome) → IsInBounds screen outcome.view → LandsOn (some outcome)
  unfolding LandsOn
  lands_on outcome h = (outcome, (refl, h))

  if-LandsOn :
      (b : Bool) (x y : Option Outcome) → LandsOn x → LandsOn y → LandsOn (if b then x else y)
  if-LandsOn true x y h k = h
  if-LandsOn false x y h k = k

  lift-LandsOn : (o : Option ViewState) → Lands screen o → LandsOn (lift o)
  unfolding Lands LandsOn
  lift-LandsOn o (view, (e, h)) = (goes_on view, (ap lift e, h))

  apply_filter-IsInBounds :
      (parsed : Parsed FilterQuery) (view : ViewState)
      → IsInBounds screen view
      → IsInBounds screen (apply_filter parsed view)
  unfolding apply_filter last_row
  apply_filter-IsInBounds (ok query) view h = record {
    cursor = omega arith;
    process_cursor = h.process_cursor;
  }
  apply_filter-IsInBounds (err message) view h = record {
    cursor = h.cursor;
    process_cursor = h.process_cursor;
  }

  handle_esc-IsInBounds :
      (view : ViewState) → IsInBounds screen view → IsInBounds screen (handle_esc view)
  unfolding handle_esc last_row
  handle_esc-IsInBounds view h = by_input view.filter_input
    where
      by_focus :
          (focus : PaneFocus)
          → IsInBounds screen (elim focus [
            | processes ↦ record view { focus = files }
            | files ↦ record view { filter = no_query; filter_error = none; cursor = 0 }
          ])
      by_focus processes = record { cursor = h.cursor; process_cursor = h.process_cursor }
      by_focus files = record { cursor = omega arith; process_cursor = h.process_cursor }

      by_input :
          (o : Option Bytes)
          → IsInBounds screen (elim o [
            | some input ↦ record view { filter_input = none; filter_error = none }
            | none ↦ elim view.focus [
              | processes ↦ record view { focus = files }
              | files ↦ record view { filter = no_query; filter_error = none; cursor = 0 }
            ]
          ])
      by_input (some input) = record { cursor = h.cursor; process_cursor = h.process_cursor }
      by_input none = by_focus view.focus

  edit-IsInBounds :
      (f : Bytes → Bytes) (view : ViewState)
      → IsInBounds screen view
      → IsInBounds screen (edit f view)
  unfolding last_row
  edit-IsInBounds f view h = record { cursor = h.cursor; process_cursor = h.process_cursor }

  module _ (to_lowercase : Bytes → Bytes) where
    editor-IsInBounds :
        (code : KeyCode) (control alt : Bool) (view : ViewState)
        → IsInBounds screen view
        → IsInBounds screen (
            handle_filter_input to_lowercase
              (record { code = code; control = control; alt = alt })
              view)
    unfolding handle_filter_input last_row
    editor-IsInBounds (char c) control alt view h =
        branch screen (c == ascii "u" && control) _ _ (edit-IsInBounds (λ input. []) view h) (
          branch screen (not (control || alt)) _ _ (edit-IsInBounds (λ input. input ++ c) view h) h)
    editor-IsInBounds esc control alt view h = record {
      cursor = h.cursor;
      process_cursor = h.process_cursor;
    }
    editor-IsInBounds enter control alt view h =
        apply_filter-IsInBounds (parse to_lowercase (unwrap_or view.filter_input [])) view h
    editor-IsInBounds backspace control alt view h = edit-IsInBounds pop_char view h
    editor-IsInBounds tab control alt view h = h
    editor-IsInBounds up control alt view h = h
    editor-IsInBounds down control alt view h = h
    editor-IsInBounds home control alt view h = h
    editor-IsInBounds end_key control alt view h = h
    editor-IsInBounds page_up control alt view h = h
    editor-IsInBounds page_down control alt view h = h
    editor-IsInBounds right control alt view h = h
    editor-IsInBounds left control alt view h = h
    editor-IsInBounds other control alt view h = h

    handle_focused-LandsOn :
        (key : KeyEvent) (view : ViewState)
        → IsScreen screen
        → IsInBounds screen view
        → LandsOn (handle_focused to_lowercase key screen view)
    unfolding handle_focused
    handle_focused-LandsOn key view shown h = by_input view.filter_input
      where
        by_focus :
            (focus : PaneFocus)
            → LandsOn (elim focus [
              | processes ↦ lift (
                  handle_process_key to_lowercase key.code screen.process_pids screen.page_height
                    view)
              | files ↦ lift (file_key key.code screen (max screen.page_height 1) view)
            ])
        by_focus processes =
            lift-LandsOn _ (
              handle_process_key-Lands screen to_lowercase key.code screen.page_height view shown h)
        by_focus files =
            lift-LandsOn _ (file_key-Lands screen key.code (max screen.page_height 1) view shown h)

        by_input :
            (o : Option Bytes)
            → LandsOn (elim o [
              | some input ↦ some (goes_on (handle_filter_input to_lowercase key view))
              | none ↦ elim view.focus [
                | processes ↦ lift (
                    handle_process_key to_lowercase key.code screen.process_pids screen.page_height
                      view)
                | files ↦ lift (file_key key.code screen (max screen.page_height 1) view)
              ]
            ])
        by_input (some input) = lands_on _ (editor-IsInBounds key.code key.control key.alt view h)
        by_input none = by_focus view.focus

    -- Whatever the key: when both cursors are on a row of the screen (or at 0, without rows), and
    -- the process numbers fit `u32` and no line of the tree is the root, then the handler returns
    -- and both cursors are on a row again.
    pub handle_key-LandsOn :
        (key : KeyEvent) (view : ViewState)
        → IsScreen screen
        → IsInBounds screen view
        → (outcome : Outcome) × ((handle_key to_lowercase key screen view ≡ some outcome)
            × IsInBounds screen outcome.view)
    unfolding handle_key LandsOn last_row
    handle_key-LandsOn key view shown h =
        if-LandsOn view.show_help (some (goes_on (record view { show_help = false }))) _
          (lands_on _ (record { cursor = h.cursor; process_cursor = h.process_cursor }))
          (if-LandsOn (is_char (ascii "q") key.code || is_char (ascii "c") key.code && key.control)
            (some (record { quits = true; resets = false; view = view })) _ (lands_on _ h)
            (if-LandsOn (is_char (ascii "r") key.code)
              (some (record { quits = false; resets = true; view = view })) _ (lands_on _ h)
              (by_code key.code)))
      where
        focused : LandsOn (handle_focused to_lowercase key screen view)
        focused = handle_focused-LandsOn key view shown h

        by_code :
            (code : KeyCode)
            → LandsOn (elim code [
              | tab ↦ some (goes_on (record view { mode = other_mode view.mode; cursor = 0 }))
              | esc ↦ some (goes_on (handle_esc view))
              | _ ↦ handle_focused to_lowercase key screen view
            ])
        by_code tab =
            lands_on _ (record { cursor = omega arith; process_cursor = h.process_cursor })
        by_code esc = lands_on _ (handle_esc-IsInBounds view h)
        by_code (char c) = focused
        by_code up = focused
        by_code down = focused
        by_code home = focused
        by_code end_key = focused
        by_code page_up = focused
        by_code page_down = focused
        by_code enter = focused
        by_code right = focused
        by_code left = focused
        by_code backspace = focused
        by_code other = focused

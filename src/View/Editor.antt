-- ===== src/View/Editor.antt =====
-- The filter editor: `handle_filter_input` of ncda/src/tui/input.rs.
use ncda.Base.{
  not, ◌&&◌, ◌||◌, none, some, [], ◌++◌, Bytes, ascii, unwrap_or, if◌then◌else◌, ◌==◌, nat_eq,
  list_eq,
}
use ncda.Filter.{FilterQuery, Parsed, ok, err, parse}
use ncda.View.{ViewState}
use ncda.View.Keys.{char, esc, enter, backspace, KeyEvent, pop_char, edit}

unfoldable pub apply_filter : Parsed FilterQuery → ViewState → ViewState
apply_filter (ok query) view = record view {
  filter = query;
  filter_input = none;
  filter_error = none;
  cursor = 0;
}
apply_filter (err message) view = record view { filter_error = some message }

module _ (to_lowercase : Bytes → Bytes) where
  unfoldable pub handle_filter_input : KeyEvent → ViewState → ViewState
  handle_filter_input key view = elim key.code [
    | esc ↦ record view { filter_input = none; filter_error = none }
    | enter ↦ apply_filter (parse to_lowercase (unwrap_or view.filter_input [])) view
    | backspace ↦ edit pop_char view
    | char c ↦
        if c == ascii "u" && key.control
        then edit (λ input. []) view
        else if not (key.control || key.alt)
        then edit (λ input. input ++ c) view
        else view
    | _ ↦ view
  ]

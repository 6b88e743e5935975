-- ===== src/View/Errors.antt =====
-- What the filter editor of ncda/src/tui/input.rs does with a query that does not parse.
use ncda.Base.{
  ◌≡◌, ap, ◌∙◌, Bool, false, some, List, [], ◌∷◌, ◌++◌, Bytes, All, split_whitespace, unwrap_or,
}
use ncda.Filter.{err, parse, parse_term}
use ncda.Filter.Parsing.{IsOk, parse-first_error}
use ncda.View.{ViewState}
use ncda.View.Keys.{enter, Screen, goes_on}
use ncda.View.Editor.{apply_filter, handle_filter_input}
use ncda.View.Input.{handle_focused, handle_key}

module _ (to_lowercase : Bytes → Bytes) (view : ViewState) (input : Bytes)
    (control alt : Bool) where
  editor-error :
      (message : Bytes)
      → view.filter_input ≡ some input
      → parse to_lowercase input ≡ err message
      → handle_filter_input to_lowercase
          (record { code = enter; control = control; alt = alt })
          view
        ≡ record view { filter_error = some message }
  unfolding handle_filter_input apply_filter
  editor-error message editing e =
      ap (λ o. apply_filter (parse to_lowercase (unwrap_or o [])) view) editing
      ∙ ap (λ parsed. apply_filter parsed view) e

  focused-editor :
      (screen : Screen)
      → view.filter_input ≡ some input
      → handle_focused to_lowercase
          (record { code = enter; control = control; alt = alt })
          screen
          view
        ≡ some (
            goes_on (
              handle_filter_input to_lowercase
                (record { code = enter; control = control; alt = alt })
                view))
  unfolding handle_focused
  focused-editor screen editing = simp (handle_focused, editing)

-- Enter in the editor, with help closed: when a word of the text is the first that is not a
-- well-formed term, the editor stays open with its text, the filter and the cursor stay as they are,
-- and the message is that word's.
pub handle_key-first_error :
    (to_lowercase : Bytes → Bytes) (screen : Screen) (view : ViewState) (control alt : Bool)
    (input : Bytes) (good : List Bytes) (bad message : Bytes) (rest : List Bytes)
    → view.show_help ≡ false
    → view.filter_input ≡ some input
    → split_whitespace input ≡ good ++ bad ∷ rest
    → All (IsOk to_lowercase) good
    → parse_term to_lowercase bad ≡ err message
    → handle_key to_lowercase (record { code = enter; control = control; alt = alt }) screen view
      ≡ some (goes_on (record view { filter_error = some message }))
unfolding handle_key
handle_key-first_error to_lowercase screen view control alt input good bad message rest help editing
      words h e =
    (simp (handle_key, help))
    ∙ focused-editor to_lowercase view input control alt screen editing
    ∙ ap (λ v. some (goes_on v))
        (editor-error to_lowercase view input control alt message editing
          (parse-first_error to_lowercase input good bad message rest words h e))

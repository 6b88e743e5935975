-- ===== src/View/Typing.antt =====
-- What can be typed in the filter editor of ncda/src/tui/input.rs.
use ncda.Base.{
  ℕ, ◌≤◌, ◌≡◌, ◌≢◌, ◌⊎◌, inl, inr, refl, ap, ◌∙◌, sym, subst, Bool, true, false, not, ◌&&◌, ◌||◌,
  Option, none, some, [], ◌∷◌, ◌++◌, Bytes, All, arith, ascii, leb, ltb, unwrap_or, if◌then◌else◌,
  Bool-cases, ◌==◌, list_eq, nat_eq, list_beq_iff,
}
use mathlib.Core.List.{reverse, reverse_aux}
use ncda.Filter.{Parsed, ok, err, parse, FilterQuery, no_query}
use ncda.View.{PaneFocus, files, processes, ViewState}
use ncda.View.Keys.{
  KeyCode, char, tab, esc, up, down, home, end_key, page_up, page_down, enter, right, left,
  backspace, other, KeyEvent, Screen, pop_reversed, pop_char, map_input, edit, Outcome, goes_on,
  is_char,
}
use ncda.View.Editor.{apply_filter, handle_filter_input}
use ncda.View.Input.{handle_focused, handle_key, other_mode, handle_esc}

-- A character is one byte, or no byte of it is ASCII.
abbrev pub IsCharacter : KeyCode → Type 0
IsCharacter (char c) = ((b : ℕ) × (c ≡ b ∷ [])) ⊎ All (λ b. 128 ≤ b) c
IsCharacter _ = Unit

-- A text without the letters r and q, and an editor whose text is one.
abbrev pub LacksKeys : Bytes → Type 0
LacksKeys text = All (λ b. (b ≢ b'r') × (b ≢ b'q')) text

abbrev pub EditorLacksKeys : Option Bytes → Type 0
EditorLacksKeys none = Unit
EditorLacksKeys (some text) = LacksKeys text

append-LacksKeys : (s t : Bytes) → LacksKeys s → LacksKeys t → LacksKeys (s ++ t)
append-LacksKeys [] t h k = k
append-LacksKeys (b ∷ s) t (h, hs) k = (h, append-LacksKeys s t hs k)

reverse_aux-LacksKeys : (s t : Bytes) → LacksKeys s → LacksKeys t → LacksKeys (reverse_aux s t)
reverse_aux-LacksKeys [] t h k = k
reverse_aux-LacksKeys (b ∷ s) t (h, hs) k = reverse_aux-LacksKeys s (b ∷ t) hs (h, k)

reverse-LacksKeys : (s : Bytes) → LacksKeys s → LacksKeys (reverse s)
reverse-LacksKeys s h = reverse_aux-LacksKeys s [] h tt

pop_reversed-LacksKeys : (s : Bytes) → LacksKeys s → LacksKeys (pop_reversed s)
pop_reversed-LacksKeys [] h = tt
pop_reversed-LacksKeys (b ∷ s) (h, hs) = elim (Bool-cases (leb 128 b && ltb b 192)) [
  | inl e ↦ rw e (pop_reversed-LacksKeys s hs)
  | inr e ↦ rw e hs
]

pop_char-LacksKeys : (s : Bytes) → LacksKeys s → LacksKeys (pop_char s)
pop_char-LacksKeys s h =
    reverse-LacksKeys (pop_reversed (reverse s))
      (pop_reversed-LacksKeys (reverse s) (reverse-LacksKeys s h))

-- A character that reaches the editor is neither letter.
ascii_free : (c : Bytes) → All (λ b. 128 ≤ b) c → LacksKeys c
ascii_free [] h = tt
ascii_free (b ∷ c) (h, hs) =
    (((λ e. omega (arith, h, e)), (λ e. omega (arith, h, e))), ascii_free c hs)

character-LacksKeys :
    (c : Bytes)
    → IsCharacter (char c)
    → (c == ascii "r") ≡ false
    → (c == ascii "q") ≡ false
    → LacksKeys c
character-LacksKeys c (inr h) r q = ascii_free c h
character-LacksKeys c (inl (b, e)) r q = subst LacksKeys (sym e) (
  (
    (λ f. ground (arith, r, (list_beq_iff c (ascii "r")).1 (e ∙ ap (λ n. n ∷ []) f))),
    (λ f. ground (arith, q, (list_beq_iff c (ascii "q")).1 (e ∙ ap (λ n. n ∷ []) f))),
  ),
  tt,
)

map_input-LacksKeys :
    (f : Bytes → Bytes) (o : Option Bytes)
    → ((t : Bytes) → LacksKeys t → LacksKeys (f t))
    → EditorLacksKeys o
    → EditorLacksKeys (map_input f o)
map_input-LacksKeys f none h k = tt
map_input-LacksKeys f (some t) h k = h t k

-- A view whose editor, when it is open, lacks the letters.
abbrev pub IsFree : ViewState → Type 0
IsFree view = EditorLacksKeys view.filter_input

if-IsFree : (b : Bool) (x y : ViewState) → IsFree x → IsFree y → IsFree (if b then x else y)
if-IsFree true x y h k = h
if-IsFree false x y h k = k

apply_filter-IsFree :
    (parsed : Parsed FilterQuery) (view : ViewState)
    → IsFree view
    → IsFree (apply_filter parsed view)
unfolding apply_filter
apply_filter-IsFree (ok query) view h = tt
apply_filter-IsFree (err message) view h = h

module _ (to_lowercase : Bytes → Bytes) where
  editor-IsFree :
      (code : KeyCode) (control alt : Bool) (view : ViewState)
      → IsCharacter code
      → is_char (ascii "r") code ≡ false
      → is_char (ascii "q") code ≡ false
      → IsFree view
      → IsFree (
          handle_filter_input to_lowercase
            (record { code = code; control = control; alt = alt })
            view)
  unfolding handle_filter_input
  editor-IsFree (char c) control alt view is_character r q h =
      let typed = character-LacksKeys c is_character r q in
      if-IsFree (c == ascii "u" && control) (edit (λ input. []) view) _
        (map_input-LacksKeys (λ input. []) view.filter_input (λ t k. tt) h)
        (if-IsFree (not (control || alt)) (edit (λ input. input ++ c) view) view
          (map_input-LacksKeys (λ input. input ++ c) view.filter_input
            (λ t k. append-LacksKeys t c k typed) h)
          h)
  editor-IsFree enter control alt view c r q h =
      apply_filter-IsFree (parse to_lowercase (unwrap_or view.filter_input [])) view h
  editor-IsFree backspace control alt view c r q h =
      map_input-LacksKeys pop_char view.filter_input pop_char-LacksKeys h
  editor-IsFree esc control alt view c r q h = tt
  editor-IsFree tab control alt view c r q h = h
  editor-IsFree up control alt view c r q h = h
  editor-IsFree down control alt view c r q h = h
  editor-IsFree home control alt view c r q h = h
  editor-IsFree end_key control alt view c r q h = h
  editor-IsFree page_up control alt view c r q h = h
  editor-IsFree page_down control alt view c r q h = h
  editor-IsFree right control alt view c r q h = h
  editor-IsFree left control alt view c r q h = h
  editor-IsFree other control alt view c r q h = h

  Answers : Option Outcome → Type 0
  Answers o = (outcome : Outcome) × ((o ≡ some outcome) × IsFree outcome.view)

  if-Answers :
      (b : Bool) (x y : Option Outcome)
      → Answers x
      → (b ≡ false → Answers y)
      → Answers (if b then x else y)
  if-Answers true x y h k = h
  if-Answers false x y h k = k refl

  focused-Answers :
      (key : KeyEvent) (screen : Screen) (view : ViewState) (input : Bytes)
      → view.filter_input ≡ some input
      → IsFree (handle_filter_input to_lowercase key view)
      → Answers (handle_focused to_lowercase key screen view)
  unfolding handle_focused Answers
  focused-Answers key screen view input editing h =
      (goes_on (handle_filter_input to_lowercase key view), (simp (handle_focused, editing), h))

  esc-IsFree : (view : ViewState) → IsFree view → IsFree (handle_esc view)
  unfolding handle_esc
  esc-IsFree view h = by_input view.filter_input h
    where
      by_focus :
          EditorLacksKeys view.filter_input
          → (focus : PaneFocus)
          → IsFree (elim focus [
            | processes ↦ record view { focus = files }
            | files ↦ record view { filter = no_query; filter_error = none; cursor = 0 }
          ])
      by_focus k processes = k
      by_focus k files = k

      by_input :
          (o : Option Bytes)
          → EditorLacksKeys view.filter_input
          → IsFree (elim o [
            | some input ↦ record view { filter_input = none; filter_error = none }
            | none ↦ elim view.focus [
              | processes ↦ record view { focus = files }
              | files ↦ record view { filter = no_query; filter_error = none; cursor = 0 }
            ]
          ])
      by_input (some input) k = tt
      by_input none k = by_focus k view.focus

  -- While the editor is open on a text without the letters r and q, no key puts one of them into the
  -- text: the handler returns, and the text, if the editor is still open, is again without them.
  pub handle_key-IsFree :
      (key : KeyEvent) (screen : Screen) (view : ViewState) (input : Bytes)
      → IsCharacter key.code
      → view.filter_input ≡ some input
      → LacksKeys input
      → (outcome : Outcome) × ((handle_key to_lowercase key screen view ≡ some outcome)
          × IsFree outcome.view)
  unfolding handle_key Answers
  handle_key-IsFree key screen view input is_character editing lacks =
      if-Answers view.show_help (some (goes_on (record view { show_help = false }))) _
        (_, (refl, free))
        (λ no_help.
          if-Answers (is_char (ascii "q") key.code || is_char (ascii "c") key.code && key.control)
            (some (record { quits = true; resets = false; view = view })) _ (_, (refl, free))
            (λ no_quit.
              if-Answers (is_char (ascii "r") key.code)
                (some (record { quits = false; resets = true; view = view })) _ (_, (refl, free))
                (λ no_reset.
                  by_code
                    (focused-Answers key screen view input editing (
                      editor-IsFree key.code key.control key.alt view is_character no_reset
                        (ground (arith, no_quit)) free))
                    key.code)))
    where
      free : IsFree view
      free = subst EditorLacksKeys (sym editing) lacks

      by_code :
          Answers (handle_focused to_lowercase key screen view)
          → (code : KeyCode)
          → Answers (elim code [
            | tab ↦ some (goes_on (record view { mode = other_mode view.mode; cursor = 0 }))
            | esc ↦ some (goes_on (handle_esc view))
            | _ ↦ handle_focused to_lowercase key screen view
          ])
      by_code k tab = (_, (refl, free))
      by_code k esc = (_, (refl, esc-IsFree view free))
      by_code k (char c) = k
      by_code k up = k
      by_code k down = k
      by_code k home = k
      by_code k end_key = k
      by_code k page_up = k
      by_code k page_down = k
      by_code k enter = k
      by_code k right = k
      by_code k left = k
      by_code k backspace = k
      by_code k other = k

-- ===== src/View/Keys.antt =====
-- What ncda/src/tui/input.rs is given and answers. A character comes as its UTF-8 bytes.
use ncda.Base.{
  ℕ, ◌+◌, ◌-◌, ◌^◌, Bool, false, ◌&&◌, Option, none, some, List, [], ◌∷◌, Bytes, length, min, ltb,
  leb, saturating_sub, if◌then◌else◌, ◌==◌, nat_eq, list_eq,
}
use mathlib.Core.List.{reverse}
use ncda.View.{flat, tree, ViewState}
use ncda.View.Rows.{TreeLine}

pub data KeyCode : Type 0 where
  char : Bytes → KeyCode
  tab esc up down home end_key page_up page_down enter right left backspace other : KeyCode

pub record KeyEvent : Type 0 where
  pub code : KeyCode
  pub control : Bool
  pub alt : Bool

-- What the handler is told of the rows on the screen.
pub record Screen : Type 0 where
  pub flat_child_count : ℕ
  pub tree_lines : List TreeLine
  pub process_pids : List ℕ
  pub page_height : ℕ

-- `String::pop` on the reversed bytes: continuation bytes, and the byte that they belong to.
abbrev pub pop_reversed : Bytes → Bytes
pop_reversed [] = []
pop_reversed (b ∷ s) = let rest = pop_reversed s in if leb 128 b && ltb b 192 then rest else s

abbrev pub pop_char : Bytes → Bytes
pop_char s = reverse (pop_reversed (reverse s))

abbrev pub map_input : (Bytes → Bytes) → Option Bytes → Option Bytes
map_input f none = none
map_input f (some input) = some (f input)

abbrev pub edit : (Bytes → Bytes) → ViewState → ViewState
edit f view = record view { filter_input = map_input f view.filter_input; filter_error = none }

-- The last row of the files' pane.
unfoldable pub last_row : Screen → ViewState → ℕ
last_row screen view = elim view.mode [
  | flat ↦ saturating_sub screen.flat_child_count 1
  | tree ↦ saturating_sub (length screen.tree_lines) 1
]

abbrev pub open_editor : ViewState → ViewState
open_editor view = record view { filter_input = some view.filter.raw; filter_error = none }

-- A character's key: no key of another kind has bytes.
abbrev pub is_char : Bytes → KeyCode → Bool
is_char c (char d) = d == c
is_char c _ = false

-- `usize::saturating_add`
abbrev pub advance : ℕ → ℕ → ℕ → ℕ
advance cursor page last = min (min (cursor + page) (2 ^ 64 - 1)) last

-- What a key does: whether the program quits, whether it resets its statistics, and the view.
pub record Outcome : Type 0 where
  pub quits : Bool
  pub resets : Bool
  pub view : ViewState

abbrev pub goes_on : ViewState → Outcome
goes_on view = record { quits = false; resets = false; view = view }

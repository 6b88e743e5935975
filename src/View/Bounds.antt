-- ===== src/View/Bounds.antt =====
-- The keys of ncda/src/tui/input.rs keep both cursors on a row, and none of them panics.
pub mod Files
pub mod Processes
pub mod Handling
use ncda.Base.{
  ℕ, zero, suc, ◌+◌, ◌-◌, ◌≤◌, ◌<◌, ◌≡◌, refl, sym, ap, ◌∙◌, subst, Bool, true, false, not, Option,
  none, some, List, [], ◌∷◌, ◌++◌, Bytes, is_empty, length, get_elem?, All, arith, ascii, decimal,
  u32_max, if◌then◌else◌, Bool-cases, Option-cases, inl, inr, min, max, ltb, nat_beq,
}
use ncda.Filter.{FilterQuery, no_query, Parsed, ok, err, parse, pid_term}
use ncda.Filter.Parsing.{parse-pid_query, pid_query}
use ncda.View.{
  ViewMode, flat, tree, PaneFocus, files, processes, ViewState, position, position_from,
  select_at_cursor, select_process, reconcile_process_selection,
}
use ncda.View.Rows.{TreeLine}
use ncda.View.Keys.{
  KeyCode, char, tab, esc, up, down, home, end_key, page_up, page_down, enter, right, left,
  backspace, other, KeyEvent, Screen, pop_char, edit, last_row, open_editor, is_char, advance,
  Outcome, goes_on,
}

-- What the event loop passes: process numbers are `u32`s, and a line has a component at least.
pub record IsScreen (screen : Screen) : Type 0 where
  pub pids : All (λ pid. pid ≤ u32_max) screen.process_pids
  pub lines : All (λ (line : TreeLine). is_empty line.path ≡ false) screen.tree_lines

pub record IsInBounds (screen : Screen) (view : ViewState) : Type 0 where
  pub cursor : view.cursor ≤ last_row screen view
  pub process_cursor : view.process_cursor ≤ length screen.process_pids - 1

pub position_from-bound :
    {A : Type 0} (p : A → Bool) (i : ℕ) (xs : List A) (index : ℕ)
    → position_from p i xs ≡ some index
    → index < i + length xs
position_from-bound p i [] index e = ground (arith, e)
position_from-bound p i (x ∷ xs) index e = elim (Bool-cases (p x)) [
  | inl h ↦ ground (arith, e, h)
  | inr h ↦ ground (
    arith,
    position_from-bound p (suc i) xs index
        (subst (λ b. (if b then some i else position_from p (suc i) xs) ≡ some index) h e),
  )
]

pub get_elem?-some :
    {A : Type 0} (xs : List A) (i : ℕ) → i < length xs → (a : A) × (get_elem? xs i ≡ some a)
get_elem?-some [] i h = absurd (omega (arith, h))
get_elem?-some (x ∷ xs) zero h = (x, refl)
get_elem?-some (x ∷ xs) (suc i) h = get_elem?-some xs i (omega (arith, h))

pub nonempty_last :
    {A : Type 0} (xs : List A) (i : ℕ) → is_empty xs ≡ false → min i (length xs - 1) < length xs
nonempty_last [] i h = ground (arith, h)
nonempty_last (x ∷ xs) i h = omega arith

module _ (screen : Screen) where
  -- A handler that does not panic and leaves the cursors in bounds.
  unfoldable pub Lands : Option ViewState → Type 0
  Lands o = (view : ViewState) × ((o ≡ some view) × IsInBounds screen view)

  pub lands : (view : ViewState) → IsInBounds screen view → Lands (some view)
  unfolding Lands
  lands view h = (view, (refl, h))

  pub if-Lands :
      (b : Bool) (x y : Option ViewState) → Lands x → Lands y → Lands (if b then x else y)
  if-Lands true x y h k = h
  if-Lands false x y h k = k

  pub branch :
      (b : Bool) (x y : ViewState)
      → IsInBounds screen x
      → IsInBounds screen y
      → IsInBounds screen (if b then x else y)
  branch true x y h k = h
  branch false x y h k = k

  select_at_cursor-Lands :
      (view : ViewState)
      → view.cursor ≤ last_row screen view
      → is_empty screen.process_pids ≡ false
      → Lands (select_at_cursor screen.process_pids view)
  unfolding select_at_cursor last_row Lands
  select_at_cursor-Lands view h some_pids =
      let (pid, e) =
        get_elem?-some screen.process_pids
          (min view.process_cursor (length screen.process_pids - 1))
          (nonempty_last screen.process_pids view.process_cursor some_pids) in
      rw (select_at_cursor, e) (_, (refl, record { cursor = h; process_cursor = omega arith }))

  select_process-Lands :
      (o : Option ℕ) (view : ViewState)
      → view.cursor ≤ last_row screen view
      → is_empty screen.process_pids ≡ false
      → Lands (select_process screen.process_pids o view)
  unfolding select_process last_row
  select_process-Lands none view h some_pids = select_at_cursor-Lands view h some_pids
  select_process-Lands (some selected) view h some_pids = by_index _ refl
    where
      by_index :
          (o : Option ℕ)
          → position (λ pid. nat_beq pid selected) screen.process_pids ≡ o
          → Lands (elim o [
            | some index ↦ some (record view { process_cursor = index })
            | none ↦ select_at_cursor screen.process_pids view
          ])
      by_index none e = select_at_cursor-Lands view h some_pids
      by_index (some index) e = lands _ (record {
        cursor = h;
        process_cursor = omega (
          arith,
          position_from-bound (λ pid. nat_beq pid selected) 0 screen.process_pids index e,
        );
      })

  pub reconcile-Lands :
      (view : ViewState)
      → view.cursor ≤ last_row screen view
      → Lands (reconcile_process_selection screen.process_pids view)
  unfolding reconcile_process_selection last_row
  reconcile-Lands view h = elim (Bool-cases (is_empty screen.process_pids)) [
    | inl e ↦ rw e (lands _ (record { cursor = h; process_cursor = omega arith }))
    | inr e ↦ rw e (select_process-Lands view.selected_process view h e)
  ]

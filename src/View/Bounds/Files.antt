-- ===== src/View/Bounds/Files.antt =====
-- The keys of the files' pane keep the cursors on a row and do not panic.
use ncda.Base.{
  ℕ, zero, suc, ◌-◌, ◌≤◌, ◌≡◌, refl, sym, subst, true, false, not, Option, none, some, List, [],
  ◌∷◌, Bytes, is_empty, length, get_elem?, All, arith, ascii, if◌then◌else◌, Bool-cases, inl, inr,
  ltb, ◌==◌, ◌&&◌, take, list_eq, nat_eq, saturating_sub,
}
use ncda.View.{next_sort, ViewMode, flat, tree, processes, ViewState, position}
use ncda.View.Rows.{TreeLine}
use ncda.View.Keys.{
  KeyCode, char, tab, esc, up, down, home, end_key, page_up, page_down, enter, right, left,
  backspace, other, Screen, last_row, advance,
}
use ncda.View.Files.{
  toggle_line, drill_in, go_to_parent, collapse_line, go_up, move_down, move_up, toggle_processes,
  file_char, file_key,
}
use ncda.View.Bounds.{
  IsScreen, IsInBounds, Lands, lands, if-Lands, branch, reconcile-Lands, position_from-bound,
}

module _ (screen : Screen) where
  toggle_line-IsInBounds :
      (line : TreeLine) (view : ViewState)
      → IsInBounds screen view
      → IsInBounds screen (toggle_line line view)
  unfolding toggle_line last_row
  toggle_line-IsInBounds line view h = branch screen (not line.is_dir) _ _ h (
      branch screen line.is_expanded _ _
        (record { cursor = h.cursor; process_cursor = h.process_cursor })
        (record { cursor = h.cursor; process_cursor = h.process_cursor }))

  drill_in-IsInBounds :
      (view : ViewState) → IsInBounds screen view → IsInBounds screen (drill_in screen view)
  unfolding drill_in
  drill_in-IsInBounds view h = by_mode view.mode
    where
      by_line :
          (o : Option TreeLine)
          → IsInBounds screen (elim o [ some line ↦ toggle_line line view | none ↦ view ])
      by_line none = h
      by_line (some line) = toggle_line-IsInBounds line view h

      by_mode :
          (mode : ViewMode)
          → IsInBounds screen (elim mode [
            | flat ↦ view
            | tree ↦ elim (get_elem? screen.tree_lines view.cursor) [
              | some line ↦ toggle_line line view
              | none ↦ view
            ]
          ])
      by_mode flat = h
      by_mode tree = by_line (get_elem? screen.tree_lines view.cursor)

  move_up-IsInBounds :
      (view : ViewState) → IsInBounds screen view → IsInBounds screen (move_up view)
  unfolding last_row
  move_up-IsInBounds view h = record {
    cursor = omega (arith, h.cursor);
    process_cursor = h.process_cursor;
  }

  move_down-IsInBounds :
      (view : ViewState) → IsInBounds screen view → IsInBounds screen (move_down screen view)
  unfolding last_row
  move_down-IsInBounds view h = elim (Bool-cases (ltb view.cursor (last_row screen view))) [
    | inl e ↦ rw e (record { cursor = ground (arith, e); process_cursor = h.process_cursor })
    | inr e ↦ rw e h
  ]

  toggle_processes-IsInBounds :
      (view : ViewState) → IsInBounds screen view → IsInBounds screen (toggle_processes view)
  unfolding toggle_processes last_row
  toggle_processes-IsInBounds view h =
      branch screen view.show_processes _ _
        (record { cursor = h.cursor; process_cursor = h.process_cursor })
        (record { cursor = h.cursor; process_cursor = h.process_cursor })

  -- The line that the cursor goes to is one of the lines.
  parent-Lands :
      (parent : List Bytes) (view : ViewState)
      → view.mode ≡ tree
      → IsInBounds screen view
      → Lands screen (elim (position (λ (l : TreeLine). l.path == parent) screen.tree_lines) [
        | some index ↦ some (record view { cursor = index })
        | none ↦ some view
      ])
  unfolding last_row
  parent-Lands parent view mode h = by_index _ refl
    where
      by_index :
          (o : Option ℕ)
          → position (λ (l : TreeLine). l.path == parent) screen.tree_lines ≡ o
          → Lands screen
              (elim o [ some index ↦ some (record view { cursor = index }) | none ↦ some view ])
      by_index none e = lands screen view h
      by_index (some index) e =
          let bound =
            position_from-bound (λ (l : TreeLine). l.path == parent) 0 screen.tree_lines index e in
          lands screen (record view { cursor = index })
            (record { cursor = rw mode (omega (arith, bound)); process_cursor = h.process_cursor })

  collapse_line-Lands :
      (line : TreeLine) (view : ViewState)
      → is_empty line.path ≡ false
      → view.mode ≡ tree
      → IsInBounds screen view
      → Lands screen (collapse_line screen.tree_lines line view)
  unfolding collapse_line go_to_parent last_row
  collapse_line-Lands line view path mode h =
      if-Lands screen (line.is_dir && line.is_expanded) _ _
        (lands screen _ (record { cursor = h.cursor; process_cursor = h.process_cursor }))
        (if-Lands screen (ltb 0 line.depth) _ _
          (subst
            (λ b.
              Lands screen
                (elim (if b then none else some (take (length line.path - 1) line.path)) [
                  | none ↦ none
                  | some parent ↦
                      elim (position (λ (l : TreeLine). l.path == parent) screen.tree_lines) [
                        | some index ↦ some (record view { cursor = index })
                        | none ↦ some view
                      ]
                ]))
            (sym path) (parent-Lands (take (length line.path - 1) line.path) view mode h))
          (lands screen view h))

  All-get_elem? :
      (lines : List TreeLine) (i : ℕ) (line : TreeLine)
      → All (λ (line : TreeLine). is_empty line.path ≡ false) lines
      → get_elem? lines i ≡ some line
      → is_empty line.path ≡ false
  All-get_elem? [] i line h e = ground (arith, e)
  All-get_elem? (x ∷ xs) zero line (h, hs) e = ground (arith, e, h)
  All-get_elem? (x ∷ xs) (suc i) line (h, hs) e = All-get_elem? xs i line hs e

  go_up-Lands :
      (view : ViewState)
      → IsScreen screen
      → IsInBounds screen view
      → Lands screen (go_up screen view)
  unfolding go_up last_row
  go_up-Lands view shown h = by_mode view.mode refl
    where
      by_line :
          (o : Option TreeLine)
          → get_elem? screen.tree_lines view.cursor ≡ o
          → view.mode ≡ tree
          → Lands screen
              (elim o [ some line ↦ collapse_line screen.tree_lines line view | none ↦ some view ])
      by_line none e mode = lands screen view h
      by_line (some line) e mode =
          collapse_line-Lands line view
            (All-get_elem? screen.tree_lines view.cursor line shown.lines e) mode h

      by_mode :
          (mode : ViewMode)
          → view.mode ≡ mode
          → Lands screen (elim mode [
            | flat ↦ some (
                if is_empty view.cwd
                then view
                else record view { cwd = take (length view.cwd - 1) view.cwd; cursor = 0 })
            | tree ↦ elim (get_elem? screen.tree_lines view.cursor) [
              | some line ↦ collapse_line screen.tree_lines line view
              | none ↦ some view
            ]
          ])
      by_mode flat e = lands screen _ (
          branch screen (is_empty view.cwd) _ _ h
            (record { cursor = omega arith; process_cursor = h.process_cursor }))
      by_mode tree e = by_line (get_elem? screen.tree_lines view.cursor) refl e

  at_row :
      (row : ℕ) (view : ViewState)
      → row ≤ last_row screen view
      → IsInBounds screen view
      → Lands screen (some (record view { cursor = row }))
  unfolding last_row
  at_row row view h k = lands screen _ (record { cursor = h; process_cursor = k.process_cursor })

  same_rows : (view : ViewState) → IsInBounds screen view → Lands screen (some view)
  same_rows view h = lands screen view h

  file_char-Lands :
      (c : Bytes) (view : ViewState)
      → IsScreen screen
      → IsInBounds screen view
      → Lands screen (file_char c screen view)
  unfolding file_char last_row
  file_char-Lands c view shown h =
      let same = if-Lands screen in
      same (c == ascii "k") _ _ (lands screen (move_up view) (move_up-IsInBounds view h)) (
        same (c == ascii "j") _ _
          (lands screen (move_down screen view) (move_down-IsInBounds view h))
          (same (c == ascii "g") _ _ (at_row 0 view (omega arith) h) (
            same (c == ascii "G") _ _ (at_row (last_row screen view) view (omega arith) h) (
              same (c == ascii "l") _ _
                (lands screen (drill_in screen view) (drill_in-IsInBounds view h))
                (same (c == ascii "h") _ _ (go_up-Lands view shown h) (
                  same (c == ascii "s") _ _
                    (lands screen (record view { sort_by = next_sort view.sort_by })
                      (record { cursor = h.cursor; process_cursor = h.process_cursor }))
                    (same (c == ascii "S") _ _
                      (lands screen (record view { sort_desc = not view.sort_desc })
                        (record { cursor = h.cursor; process_cursor = h.process_cursor }))
                      (same (c == ascii "/") _ _
                        (lands screen
                          (record view { filter_input = some view.filter.raw; filter_error = none })
                          (record { cursor = h.cursor; process_cursor = h.process_cursor }))
                        (same (c == ascii "p") _ _
                          (lands screen (toggle_processes view)
                            (toggle_processes-IsInBounds view h))
                          (same (c == ascii "P") _ _
                            (reconcile-Lands screen
                              (record view { show_processes = true; focus = processes }) h.cursor)
                            (same (c == ascii "?") _ _
                              (lands screen (record view { show_help = true })
                                (record { cursor = h.cursor; process_cursor = h.process_cursor }))
                              (lands screen view h))))))))))))

  pub file_key-Lands :
      (code : KeyCode) (page : ℕ) (view : ViewState)
      → IsScreen screen
      → IsInBounds screen view
      → Lands screen (file_key code screen page view)
  unfolding file_key
  file_key-Lands (char c) page view shown h = file_char-Lands c view shown h
  file_key-Lands up page view shown h = lands screen _ (move_up-IsInBounds view h)
  file_key-Lands down page view shown h = lands screen _ (move_down-IsInBounds view h)
  file_key-Lands home page view shown h = at_row 0 view (omega arith) h
  file_key-Lands end_key page view shown h = at_row (last_row screen view) view (omega arith) h
  file_key-Lands page_up page view shown h =
      at_row (saturating_sub view.cursor page) view (omega (arith, h.cursor)) h
  file_key-Lands page_down page view shown h =
      at_row (advance view.cursor page (last_row screen view)) view (omega arith) h
  file_key-Lands enter page view shown h = lands screen _ (drill_in-IsInBounds view h)
  file_key-Lands right page view shown h = lands screen _ (drill_in-IsInBounds view h)
  file_key-Lands left page view shown h = go_up-Lands view shown h
  file_key-Lands backspace page view shown h = go_up-Lands view shown h
  file_key-Lands tab page view shown h = lands screen view h
  file_key-Lands esc page view shown h = lands screen view h
  file_key-Lands other page view shown h = lands screen view h

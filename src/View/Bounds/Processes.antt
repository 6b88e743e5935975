-- ===== src/View/Bounds/Processes.antt =====
-- The keys of the processes' pane keep the cursors on a row and do not panic.
use ncda.Base.{
  ℕ, zero, suc, ◌+◌, ◌-◌, ◌≤◌, ◌≡◌, refl, sym, subst, true, false, not, Option, none, some, List,
  [], ◌∷◌, ◌++◌, Bytes, length, get_elem?, All, arith, ascii, decimal, u32_max, min, max, ◌==◌,
  list_eq, nat_eq, saturating_sub, trim,
}
use ncda.Filter.{FilterQuery, parse, pid_term}
use ncda.Filter.Parsing.{parse-pid_query, pid_query}
use ncda.View.{next_process_sort, files, ViewState}
use ncda.View.Keys.{
  KeyCode, char, tab, esc, up, down, home, end_key, page_up, page_down, enter, right, left,
  backspace, other, Screen, last_row, open_editor, advance,
}
use ncda.View.Processes.{
  select_cursor, filter_process, last_pid, process_char, process_enter, process_key,
  handle_process_key,
}
use ncda.View.Bounds.{IsScreen, IsInBounds, Lands, lands, branch}

module _ (screen : Screen) where
  process_char-IsInBounds :
      (c : Bytes) (view : ViewState)
      → IsInBounds screen view
      → IsInBounds screen (process_char c screen.process_pids view)
  unfolding process_char last_row
  process_char-IsInBounds c view h =
      branch screen (c == ascii "P") (record view { focus = files }) _
        (record { cursor = h.cursor; process_cursor = h.process_cursor })
        (branch screen (c == ascii "p") (record view { show_processes = false; focus = files }) _
          (record { cursor = h.cursor; process_cursor = h.process_cursor })
          (branch screen (c == ascii "k")
            (record view { process_cursor = saturating_sub view.process_cursor 1 }) _
            (record { cursor = h.cursor; process_cursor = omega (arith, h.process_cursor) })
            (branch screen (c == ascii "j")
              (record view {
                process_cursor = min (view.process_cursor + 1) (last_pid screen.process_pids);
              })
              _ (record { cursor = h.cursor; process_cursor = omega arith })
              (branch screen (c == ascii "g") (record view { process_cursor = 0 }) _
                (record { cursor = h.cursor; process_cursor = omega arith })
                (branch screen (c == ascii "G")
                  (record view { process_cursor = last_pid screen.process_pids }) _
                  (record { cursor = h.cursor; process_cursor = omega arith })
                  (branch screen (c == ascii "s")
                    (record view { process_sort = next_process_sort view.process_sort }) _
                    (record { cursor = h.cursor; process_cursor = h.process_cursor })
                    (branch screen (c == ascii "S")
                      (record view { process_sort_desc = not view.process_sort_desc }) _
                      (record { cursor = h.cursor; process_cursor = h.process_cursor })
                      (branch screen (c == ascii "/") (open_editor view) _
                        (record { cursor = h.cursor; process_cursor = h.process_cursor })
                        (branch screen (c == ascii "?") (record view { show_help = true }) _
                          (record { cursor = h.cursor; process_cursor = h.process_cursor })
                          h)))))))))

  All-get_elem? :
      (pids : List ℕ) (i pid : ℕ)
      → All (λ pid. pid ≤ u32_max) pids
      → get_elem? pids i ≡ some pid
      → pid ≤ u32_max
  All-get_elem? [] i pid h e = ground (arith, e)
  All-get_elem? (x ∷ xs) zero pid (h, hs) e = ground (arith, e, h)
  All-get_elem? (x ∷ xs) (suc i) pid (h, hs) e = All-get_elem? xs i pid hs e

  at_process :
      (row : ℕ) (view : ViewState)
      → row ≤ length screen.process_pids - 1
      → IsInBounds screen view
      → Lands screen (some (record view { process_cursor = row }))
  unfolding last_row
  at_process row view h k = lands screen _ (record { cursor = k.cursor; process_cursor = h })

  module _ (to_lowercase : Bytes → Bytes) where
    process_enter-Lands :
        (view : ViewState)
        → IsScreen screen
        → IsInBounds screen view
        → Lands screen (process_enter to_lowercase screen.process_pids view)
    unfolding process_enter filter_process last_row
    process_enter-Lands view shown h =
        by_pid (get_elem? screen.process_pids view.process_cursor) refl
      where
        by_pid :
            (o : Option ℕ)
            → get_elem? screen.process_pids view.process_cursor ≡ o
            → Lands screen (elim o [
              | some pid ↦ filter_process (parse to_lowercase (ascii "pid:" ++ decimal pid)) view
              | none ↦ some view
            ])
        by_pid none e = lands screen view h
        by_pid (some pid) e =
            let fits = All-get_elem? screen.process_pids view.process_cursor pid shown.pids e in
            let query : FilterQuery = record {
              raw = trim (pid_query pid);
              terms = pid_term pid ∷ [];
            } in
            subst (λ parsed. Lands screen (filter_process parsed view))
              (sym (parse-pid_query to_lowercase pid fits))
              (lands screen (record view { filter = query; cursor = 0; focus = files })
                (record { cursor = omega arith; process_cursor = h.process_cursor }))

    process_key-Lands :
        (code : KeyCode) (page : ℕ) (view : ViewState)
        → IsScreen screen
        → IsInBounds screen view
        → Lands screen (process_key to_lowercase code screen.process_pids page view)
    unfolding process_key
    process_key-Lands (char c) page view shown h = lands screen _ (process_char-IsInBounds c view h)
    process_key-Lands up page view shown h =
        at_process (saturating_sub view.process_cursor 1) view (omega (arith, h.process_cursor)) h
    process_key-Lands down page view shown h =
        at_process (min (view.process_cursor + 1) (last_pid screen.process_pids)) view (omega arith)
          h
    process_key-Lands home page view shown h = at_process 0 view (omega arith) h
    process_key-Lands end_key page view shown h =
        at_process (last_pid screen.process_pids) view (omega arith) h
    process_key-Lands page_up page view shown h =
        at_process (saturating_sub view.process_cursor page) view (omega (arith, h.process_cursor))
          h
    process_key-Lands page_down page view shown h =
        at_process (advance view.process_cursor page (last_pid screen.process_pids)) view
          (omega arith) h
    process_key-Lands enter page view shown h = process_enter-Lands view shown h
    process_key-Lands right page view shown h = lands screen view h
    process_key-Lands left page view shown h = lands screen view h
    process_key-Lands backspace page view shown h = lands screen view h
    process_key-Lands tab page view shown h = lands screen view h
    process_key-Lands esc page view shown h = lands screen view h
    process_key-Lands other page view shown h = lands screen view h

    pub handle_process_key-Lands :
        (code : KeyCode) (page_height : ℕ) (view : ViewState)
        → IsScreen screen
        → IsInBounds screen view
        → Lands screen (handle_process_key to_lowercase code screen.process_pids page_height view)
    unfolding handle_process_key Lands last_row
    handle_process_key-Lands code page_height view shown h =
        let (view', (e, k)) = process_key-Lands code (max page_height 1) view shown h in
        (
          select_cursor screen.process_pids view',
          (
            rw (handle_process_key, e) refl,
            record { cursor = k.cursor; process_cursor = k.process_cursor },
          ),
        )

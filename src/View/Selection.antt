-- ===== src/View/Selection.antt =====
-- The selections of ncda/src/tui/app.rs and ncda/src/tui/mod.rs stay with what is selected.
use ncda.Base.{
  ℕ, zero, suc, ◌+◌, ◌-◌, ◌<◌, ◌≡◌, refl, ap, subst, Bool, true, false, Option, none, some, List,
  [], ◌∷◌, Bytes, arith, is_empty, length, get_elem?, any, min, nat_beq, if◌then◌else◌, Bool-cases,
  inl, inr, PartialEq, ◌==◌, nat_eq, list_eq,
}
use ncda.App.{AppState}
use ncda.View.{
  ViewState, position, position_from, select_at_cursor, select_process, reconcile_process_selection,
}
use ncda.View.Bounds.{get_elem?-some, nonempty_last}
use ncda.View.Session.{select_row, shown_paths, selected_index, reconcile_file_selection}

module _ {A : Type 0} ⦃e : PartialEq A⦄ where
  -- What `position` answers: the element is absent, or it stands at the index.
  abbrev Found : A → ℕ → List A → Option ℕ → Type 0
  Found a i xs none = any (λ x. e.eq x a) xs ≡ false
  Found a i xs (some index) =
      (k : ℕ) × ((index ≡ i + k) × ((get_elem? xs k ≡ some a) × (any (λ x. e.eq x a) xs ≡ true)))

  position_from-Found :
      (a : A) (i : ℕ) (xs : List A) → Found a i xs (position_from (λ x. e.eq x a) i xs)
  position_from-Found a i [] = refl
  position_from-Found a i (x ∷ xs) = elim (Bool-cases (e.eq x a)) [
    | inl h ↦ rw h (0, (omega arith, (ap some ((e.eq_iff x a).0 h), rw h refl)))
    | inr h ↦
        rw h (later h (position_from (λ x. e.eq x a) (suc i) xs) (position_from-Found a (suc i) xs))
  ]
    where
      later : e.eq x a ≡ false → (o : Option ℕ) → Found a (suc i) xs o → Found a i (x ∷ xs) o
      later h none f = rw h f
      later h (some index) (k, (at, (found, present))) =
          (suc k, (omega (arith, at), (found, ground (arith, present))))

  get_elem?-bound : (xs : List A) (i : ℕ) (a : A) → get_elem? xs i ≡ some a → i < length xs
  get_elem?-bound [] i a h = ground (arith, h)
  get_elem?-bound (x ∷ xs) zero a h = omega arith
  get_elem?-bound (x ∷ xs) (suc i) a h = omega (arith, get_elem?-bound xs i a h)

  -- Whether an item is selected and still there.
  abbrev pub is_still_there : Option A → List A → Bool
  is_still_there none xs = false
  is_still_there (some a) xs = any (λ x. e.eq x a) xs

  -- A selection of the items at a cursor: an item of theirs, the one selected before if it is still
  -- there, and else the item at the cursor from before or at the last row.
  abbrev pub IsReselected : List A → ℕ → Option A → ℕ → Option A → Type 0
  IsReselected xs cursor selected cursor' selected' =
      (cursor' < length xs)
      × ((get_elem? xs cursor' ≡ selected')
          × (selected' ≡ (
              if is_still_there selected xs
              then selected
              else get_elem? xs (min cursor (length xs - 1)))))

  not_there :
      (xs : List A) (cursor : ℕ) (selected : Option A)
      → is_empty xs ≡ false
      → is_still_there selected xs ≡ false
      → IsReselected xs cursor selected
          (min cursor (length xs - 1))
          (get_elem? xs (min cursor (length xs - 1)))
  not_there [] cursor selected h k = ground (arith, h)
  not_there (x ∷ xs) cursor selected h k = (omega arith, (refl, rw k refl))

  there :
      (xs : List A) (cursor : ℕ) (a : A) (index : ℕ)
      → Found a 0 xs (some index)
      → IsReselected xs cursor (some a) index (some a)
  there xs cursor a index (k, (at, (found, present))) =
      let same : k ≡ index = omega (arith, at) in
      let here : get_elem? xs index ≡ some a = subst (λ n. get_elem? xs n ≡ some a) same found in
      (get_elem?-bound xs index a here, (here, rw present refl))

-- When there are processes, the processes' selection is made without a panic: the cursor is on a
-- row, the selected process is the row's, and it is the one selected before when that is still there.
pub reconcile_process_selection-IsReselected :
    (pids : List ℕ) (view : ViewState)
    → is_empty pids ≡ false
    → (view' : ViewState) × ((reconcile_process_selection pids view ≡ some view')
        × IsReselected pids view.process_cursor view.selected_process view'.process_cursor
            view'.selected_process)
unfolding reconcile_process_selection select_process select_at_cursor
reconcile_process_selection-IsReselected pids view h =
    rw (reconcile_process_selection, h) (by_selected view.selected_process refl)
  where
    Reselects : Option ℕ → Option ViewState → Type 0
    Reselects was o =
        (view' : ViewState) × ((o ≡ some view')
          × IsReselected pids view.process_cursor was view'.process_cursor view'.selected_process)

    at_cursor :
        (was : Option ℕ)
        → is_still_there was pids ≡ false
        → Reselects was (select_at_cursor pids view)
    at_cursor was gone =
        let cursor = min view.process_cursor (length pids - 1) in
        let (pid, e) = get_elem?-some pids cursor (nonempty_last pids view.process_cursor h) in
        (
          record view { process_cursor = cursor; selected_process = some pid },
          (
            rw (select_at_cursor, e) refl,
            subst (IsReselected pids view.process_cursor was cursor) e
                (not_there pids view.process_cursor was h gone),
          ),
        )

    by_index :
        (a : ℕ)
        → view.selected_process ≡ some a
        → (o : Option ℕ) → Found a 0 pids o
        → Reselects (some a) (elim o [
          | some index ↦ some (record view { process_cursor = index })
          | none ↦ select_at_cursor pids view
        ])
    by_index a e none f = at_cursor (some a) f
    by_index a e (some index) f = (
      record view { process_cursor = index },
      (refl, rw e (there pids view.process_cursor a index f)),
    )

    by_selected :
        (o : Option ℕ) → view.selected_process ≡ o → Reselects o (select_process pids o view)
    by_selected none e = at_cursor none refl
    by_selected (some a) e =
        by_index a e (position (λ pid. nat_beq pid a) pids) (position_from-Found a 0 pids)

-- When there are rows, the files' selection is made without a panic: the cursor is on a row, the
-- selected path is the row's, and it is the one selected before when that is still on the screen, in
-- whatever order the rows come now.
pub reconcile_file_selection-IsReselected :
    (to_lowercase : Bytes → Bytes) (state : AppState) (view : ViewState) (selected : Option Bytes)
    → is_empty (shown_paths to_lowercase state view) ≡ false
    → (result : ViewState × Option Bytes) × ((reconcile_file_selection to_lowercase state view
            selected
          ≡ some result)
        × IsReselected
            (shown_paths to_lowercase state view)
            view.cursor
            selected
            result.0.cursor
            result.1)
unfolding reconcile_file_selection selected_index select_row
reconcile_file_selection-IsReselected to_lowercase state view selected h =
    rw (reconcile_file_selection, h) (by_selected selected)
  where
    paths : List Bytes
    paths = shown_paths to_lowercase state view

    Reselects : Option Bytes → Option (ViewState × Option Bytes) → Type 0
    Reselects was o =
        (result : ViewState × Option Bytes) × ((o ≡ some result)
          × IsReselected paths view.cursor was result.0.cursor result.1)

    at_cursor :
        (was : Option Bytes)
        → is_still_there was paths ≡ false
        → Reselects was (select_row paths view)
    at_cursor was gone =
        let cursor = min view.cursor (length paths - 1) in
        let (path, e) = get_elem?-some paths cursor (nonempty_last paths view.cursor h) in
        (
          (record view { cursor = cursor }, some path),
          (
            rw (select_row, e) refl,
            subst (IsReselected paths view.cursor was cursor) e
                (not_there paths view.cursor was h gone),
          ),
        )

    by_index :
        (a : Bytes) (o : Option ℕ)
        → Found a 0 paths o
        → Reselects (some a) (elim o [
          | some index ↦ some (record view { cursor = index }, some a)
          | none ↦ select_row paths view
        ])
    by_index a none f = at_cursor (some a) f
    by_index a (some index) f =
        ((record view { cursor = index }, some a), (refl, there paths view.cursor a index f))

    by_selected :
        (was : Option Bytes)
        → Reselects was (elim (selected_index paths was) [
          | some index ↦ some (record view { cursor = index }, was)
          | none ↦ select_row paths view
        ])
    by_selected none = at_cursor none refl
    by_selected (some a) =
        by_index a (position (λ path. path == a) paths) (position_from-Found a 0 paths)

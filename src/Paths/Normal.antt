-- ===== src/Paths/Normal.antt =====
-- Lexical normalisation: its result has no empty, `.` or `..` component, and is its own normal form.
use ncda.Base.{
  ℕ, zero, suc, ◌-◌, ◌||◌, ltb, sym, ◌≡◌, ◌≢◌, refl, ap, ◌∙◌, true, false, not, List, [], ◌∷◌, ◌++◌,
  Bytes, All, filter, is_empty, nat_beq, if◌then◌else◌, ◌==◌, list_eq, nat_eq, ascii, split_on,
  cons_head, join, path_components, Bool-cases, inl, inr, arith, subst, list_beq_iff,
}
use mathlib.Core.List.{append_assoc, append-nil}
use ncda.Paths.{
  drop_last, push_component, fold_components, normalize_relative_path, normalize_absolute_path,
}

-- A component that stands for itself.
pub record IsNormal (c : Bytes) : Type 0 where
  pub not_empty : is_empty c ≡ false
  pub not_dot : (c == ascii ".") ≡ false
  pub not_dot_dot : (c == ascii "..") ≡ false
  pub no_slash : All (λ b. b ≢ b'/') c

abbrev NoSlash : Bytes → Type 0
NoSlash c = All (λ b. b ≢ b'/') c

NoSlash-cons_head :
    (b : ℕ) (ps : List Bytes) → b ≢ b'/' → All NoSlash ps → All NoSlash (cons_head b ps)
NoSlash-cons_head b [] h hs = ((h, tt), tt)
NoSlash-cons_head b (p ∷ ps) h hs = ((h, hs.0), hs.1)

NoSlash-split_on : (bs : Bytes) → All NoSlash (split_on b'/' bs)
NoSlash-split_on [] = (tt, tt)
NoSlash-split_on (b ∷ bs) = elim (Bool-cases (nat_beq b b'/')) [
  | inl e ↦ rw e (tt, NoSlash-split_on bs)
  | inr e ↦ rw e (NoSlash-cons_head b (split_on b'/' bs) (ground arith) (NoSlash-split_on bs))
]

All-drop_last : (cs : List Bytes) → All IsNormal cs → All IsNormal (drop_last cs)
All-drop_last [] h = tt
All-drop_last (c ∷ []) h = tt
All-drop_last (c ∷ c' ∷ cs) h = (h.0, All-drop_last (c' ∷ cs) h.1)

All-snoc :
    (cs : List Bytes) (c : Bytes) → All IsNormal cs → IsNormal c → All IsNormal (cs ++ c ∷ [])
All-snoc [] c h n = (n, tt)
All-snoc (d ∷ cs) c h n = (h.0, All-snoc cs c h.1 n)

push_component-IsNormal :
    (stack : List Bytes) (c : Bytes)
    → All IsNormal stack
    → NoSlash c
    → All IsNormal (push_component stack c)
unfolding push_component
push_component-IsNormal stack c h n = elim (Bool-cases (is_empty c)) [
  | inl e ↦ rw e h
  | inr e ↦ elim (Bool-cases (c == ascii ".")) [
    | inl d ↦ rw (e, d) h
    | inr d ↦ elim (Bool-cases (c == ascii "..")) [
      | inl dd ↦ rw (e, d, dd) (All-drop_last stack h)
      | inr dd ↦
          rw (e, d, dd)
            (All-snoc stack c h
              (record { not_empty = e; not_dot = d; not_dot_dot = dd; no_slash = n }))
    ]
  ]
]

fold_components-IsNormal :
    (stack cs : List Bytes)
    → All IsNormal stack
    → All NoSlash cs
    → All IsNormal (fold_components stack cs)
unfolding fold_components
fold_components-IsNormal stack [] h n = h
fold_components-IsNormal stack (c ∷ cs) h n =
    fold_components-IsNormal (push_component stack c) cs (push_component-IsNormal stack c h n.0) n.1

split_on-NoSlash : (c : Bytes) → NoSlash c → split_on b'/' c ≡ c ∷ []
split_on-NoSlash [] h = refl
split_on-NoSlash (b ∷ c) h = ground (arith, split_on-NoSlash c h.1)

split_on-append : (c s : Bytes) → NoSlash c → split_on b'/' (c ++ b'/' ∷ s) ≡ c ∷ split_on b'/' s
split_on-append [] s h = refl
split_on-append (b ∷ c) s h = ground (arith, split_on-append c s h.1)

split_on-join :
    (c : Bytes) (cs : List Bytes)
    → All IsNormal (c ∷ cs)
    → split_on b'/' (join b'/' (c ∷ cs)) ≡ c ∷ cs
split_on-join c [] n = split_on-NoSlash c n.0.no_slash
split_on-join c (c' ∷ cs) n =
    split_on-append c (join b'/' (c' ∷ cs)) n.0.no_slash ∙ ap (λ s. c ∷ s) (split_on-join c' cs n.1)

components-IsNormal : (path : Bytes) → All IsNormal (fold_components [] (split_on b'/' path))
components-IsNormal path =
    fold_components-IsNormal [] (split_on b'/' path) tt (NoSlash-split_on path)

filter_normal : (cs : List Bytes) → All IsNormal cs → filter (λ c. not (is_empty c)) cs ≡ cs
filter_normal [] n = refl
filter_normal (c ∷ cs) n = rw (n.0.not_empty, filter_normal cs n.1)

join_not_empty :
    (c : Bytes) (cs : List Bytes) → is_empty c ≡ false → is_empty (join b'/' (c ∷ cs)) ≡ false
join_not_empty [] cs h = cc
join_not_empty (b ∷ c) [] h = refl
join_not_empty (b ∷ c) (c' ∷ cs) h = refl

absolute_components :
    (cs : List Bytes)
    → All IsNormal cs
    → path_components (if is_empty (join b'/' cs) then ascii "/" else b'/' ∷ join b'/' cs) ≡ cs
absolute_components [] n = refl
absolute_components (c ∷ cs) n =
    rw (join_not_empty c cs n.0.not_empty, split_on-join c cs n) (filter_normal (c ∷ cs) n)

-- The `..` of some components that no component before them takes up.
abbrev pub unmatched : List Bytes → ℕ
unmatched [] = 0
unmatched (c ∷ cs) =
    if c == ascii ".."
    then suc (unmatched cs)
    else if is_empty c || c == ascii "."
    then unmatched cs
    else unmatched cs - 1

-- The names among some components that no later `..` takes away.
abbrev pub surviving : List Bytes → List Bytes
surviving [] = []
surviving (c ∷ cs) =
    let rest = surviving cs in
    if is_empty c || c == ascii "." || c == ascii ".." || ltb 0 (unmatched cs)
    then rest
    else c ∷ rest

abbrev drop_lasts : ℕ → List Bytes → List Bytes
drop_lasts zero cs = cs
drop_lasts (suc n) cs = drop_lasts n (drop_last cs)

drop_last-snoc : (cs : List Bytes) (c : Bytes) → drop_last (cs ++ c ∷ []) ≡ cs
drop_last-snoc [] c = refl
drop_last-snoc (d ∷ []) c = refl
drop_last-snoc (d ∷ d' ∷ cs) c = ap (λ s. d ∷ s) (drop_last-snoc (d' ∷ cs) c)

drop_lasts-snoc :
    (n : ℕ) (stack : List Bytes) (c : Bytes) (rest : List Bytes)
    → drop_lasts n (stack ++ c ∷ []) ++ rest
      ≡ drop_lasts (n - 1) stack ++ (if ltb 0 n then rest else c ∷ rest)
drop_lasts-snoc zero stack c rest = append_assoc stack (c ∷ []) rest
drop_lasts-snoc (suc n) stack c rest =
    let positive : ltb 0 (suc n) ≡ true = ground arith in
    let less : n ≡ suc n - 1 = omega arith in
    ap (λ s. drop_lasts n s ++ rest) (drop_last-snoc stack c)
    ∙ rw positive (ap (λ m. drop_lasts m stack ++ rest) less)

-- One component, by what it is.
Survives : List Bytes → Bytes → List Bytes → Type 0
Survives stack c cs =
    drop_lasts (unmatched cs) (push_component stack c) ++ surviving cs
    ≡ drop_lasts (unmatched (c ∷ cs)) stack ++ surviving (c ∷ cs)

push_component-Survives : (stack : List Bytes) (c : Bytes) (cs : List Bytes) → Survives stack c cs
unfolding push_component Survives
push_component-Survives stack [] cs = refl
push_component-Survives stack (b ∷ bs) cs = elim (Bool-cases ((b ∷ bs) == ascii ".")) [
  | inl e ↦ subst (λ c. Survives stack c cs) (sym ((list_beq_iff (b ∷ bs) (ascii ".")).0 e)) refl
  | inr e ↦ elim (Bool-cases ((b ∷ bs) == ascii "..")) [
    | inl d ↦ subst (λ c. Survives stack c cs) (sym ((list_beq_iff (b ∷ bs) (ascii "..")).0 d)) refl
    | inr d ↦
        rw (Survives, push_component, e, d)
          (drop_lasts-snoc (unmatched cs) stack (b ∷ bs) (surviving cs))
  ]
]

fold_components-surviving :
    (stack cs : List Bytes)
    → fold_components stack cs ≡ drop_lasts (unmatched cs) stack ++ surviving cs
unfolding fold_components Survives
fold_components-surviving stack [] = sym (append-nil stack)
fold_components-surviving stack (c ∷ cs) =
    fold_components-surviving (push_component stack c) cs ∙ push_component-Survives stack c cs

drop_lasts-nil : (n : ℕ) → drop_lasts n [] ≡ []
drop_lasts-nil zero = refl
drop_lasts-nil (suc n) = drop_lasts-nil n

-- The components of a normalised absolute path are the names of the path that no later `..` takes
-- away, in their order, where each `..` takes the nearest name before it that is still there; none
-- of them is empty, `.` or `..`, so the path leads upwards nowhere.
pub path_components-normalize_absolute_path :
    (path : Bytes)
    → (path_components (normalize_absolute_path path) ≡ surviving (split_on b'/' path))
      × All IsNormal (path_components (normalize_absolute_path path))
unfolding normalize_absolute_path normalize_relative_path
path_components-normalize_absolute_path path =
    let cs = split_on b'/' path in
    let e = absolute_components (fold_components [] cs) (components-IsNormal path) in
    let resolved =
      fold_components-surviving [] cs
      ∙ ap (λ front. front ++ surviving cs) (drop_lasts-nil (unmatched cs)) in
    (e ∙ resolved, rw e (components-IsNormal path))

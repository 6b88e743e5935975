-- ===== src/Events/Prefixes.antt =====
-- The prefixes that ncda/src/rate.rs indexes a path by, against the test of a query.
use ncda.Base.{
  ℕ, suc, ◌≤◌, ◌≡◌, refl, subst, sym, ap, ◌∙◌, Bool, false, ◌&&◌, ◌||◌, List, [], ◌∷◌, ◌++◌, Bytes,
  length, length-append, take, any, is_empty, starts_with, nat_beq, nat_beq_iff, leb, ◌==◌, nat_eq,
  list_eq, list_beq_iff, arith, Bool-cases, inl, inr,
}
use mathlib.Core.List.{append_assoc}
use ncda.Events.{tail, prefixes_at, path_prefixes, path_matches_prefix}

abbrev slash : Bytes
slash = b'/' ∷ []

too_short : (p s : Bytes) → length s ≤ length p → starts_with (p ++ slash) s ≡ false
too_short [] [] h = refl
too_short [] (b ∷ s) h = ground (arith, h)
too_short (a ∷ p) [] h = refl
too_short (a ∷ p) (b ∷ s) h = ground (arith, too_short p s)

same_length :
    (p f r : Bytes) (b : ℕ)
    → length p ≡ length f
    → starts_with (p ++ slash) (f ++ b ∷ r) ≡ (p == f && nat_beq b b'/')
same_length [] [] r b h = ground arith
same_length [] (c ∷ f) r b h = ground (arith, h)
same_length (a ∷ p) [] r b h = ground (arith, h)
same_length (a ∷ p) (c ∷ f) r b h = ground (arith, same_length p f r b)

take-front : (f r : Bytes) → take (length f) (f ++ r) ≡ f
take-front [] r = refl
take-front (c ∷ f) r = ap (λ s. c ∷ s) (take-front f r)

-- Whether a prefix is among some.
abbrev pub contains : Bytes → List Bytes → Bool
contains p = any (λ q. q == p)

contains-append :
    (p : Bytes) (ps : List Bytes) (q : Bytes)
    → contains p (ps ++ q ∷ []) ≡ (contains p ps || q == p)
contains-append p [] q = ground arith
contains-append p (r ∷ ps) q = ground (arith, contains-append p ps q)

-- What the slashes from an index on give.
abbrev Indexed : Bytes → Bytes → ℕ → Bytes → Type 0
Indexed p r n s = contains p (prefixes_at s n r) ≡ (leb n (length p) && starts_with (p ++ slash) s)

contains-prefixes_at :
    (p f r : Bytes)
    → contains p (prefixes_at (f ++ r) (length f) r)
      ≡ (leb (length f) (length p) && starts_with (p ++ slash) (f ++ r))
unfolding prefixes_at
contains-prefixes_at p f [] = ground (arith, too_short p (f ++ []), length-append f [])
contains-prefixes_at p f (b ∷ r) =
    let whole : (f ++ b ∷ []) ++ r ≡ f ++ b ∷ r = append_assoc f (b ∷ []) r in
    let one_more : length (f ++ b ∷ []) ≡ suc (length f) =
      omega (arith, length-append f (b ∷ [])) in
    let next : contains p (prefixes_at (f ++ b ∷ r) (suc (length f)) r)
        ≡ (leb (suc (length f)) (length p) && starts_with (p ++ slash) (f ++ b ∷ r)) =
      subst (Indexed p r (suc (length f))) whole (
        subst (λ n. Indexed p r n ((f ++ b ∷ []) ++ r)) one_more
          (contains-prefixes_at p (f ++ b ∷ []) r)) in
    ground (
      arith,
      next,
      take-front f (b ∷ r),
      list_beq_iff f p,
      list_beq_iff p f,
      nat_beq_iff b b'/',
      same_length p f r b,
    )

first_slash :
    (p path : Bytes)
    → is_empty p ≡ false
    → contains p (prefixes_at path 1 (tail path)) ≡ starts_with (p ++ slash) path
first_slash [] path h = cc
first_slash (a ∷ p) [] h = unfold prefixes_at in refl
first_slash (a ∷ p) (b ∷ path) h = contains-prefixes_at (a ∷ p) (b ∷ []) path ∙ ground arith

long : (p : Bytes) → is_empty p ≡ false → 1 ≤ length p
long [] h = cc
long (a ∷ p) h = omega arith

-- A prefix that is not empty is among those that a path is indexed by exactly when a query for it
-- matches the path: the index and the filter agree, and no component is cut.
pub contains-path_prefixes :
    (path prefix : Bytes)
    → is_empty prefix ≡ false
    → contains prefix (path_prefixes path) ≡ path_matches_prefix path prefix
unfolding path_prefixes path_matches_prefix
contains-path_prefixes path prefix h = elim (Bool-cases (path == slash)) [
  | inl e ↦
      let root : path ≡ slash = (list_beq_iff path slash).0 e in
      ground (
        arith,
        e,
        h,
        too_short prefix path (subst (λ s. length s ≤ length prefix) (sym root) (long prefix h)),
        list_beq_iff prefix slash,
        list_beq_iff path prefix,
        list_beq_iff path slash,
      )
  | inr e ↦ ground (
    arith,
    e,
    h,
    first_slash prefix path h,
    contains-append prefix (prefixes_at path 1 (tail path)) path,
    list_beq_iff prefix slash,
    list_beq_iff slash prefix,
  )
]

-- ===== src/Base/Lists.antt =====
-- Lists measured by native numbers, byte strings, and the pieces of `str` that the program uses.
use Prim.Native.Nat.{ℕ, zero, suc, ◌+◌}
use mathlib.Core.Path.{◌≡◌, refl}
use mathlib.Core.List.{List, [], ◌∷◌, ◌++◌}
use mathlib.Core.Bool.{Bool, true, false, not, ◌&&◌, ◌||◌}
use mathlib.Core.Option.{Option, none, some}
use native.Mathlib.Omega.{arith}
use ncda.Base.Tests.{if◌then◌else◌, nat_beq}

-- A `&str`, `String` or `&[u8]`: its bytes.
abbrev pub Bytes : Type 0
Bytes = List ℕ

module _ {ℓ} {A : Type ℓ} where
  abbrev pub length : List A → ℕ
  length [] = 0
  length (x ∷ xs) = suc (length xs)

  abbrev pub is_empty : List A → Bool
  is_empty [] = true
  is_empty (x ∷ xs) = false

  abbrev pub get_elem? : List A → ℕ → Option A
  get_elem? [] i = none
  get_elem? (x ∷ xs) zero = some x
  get_elem? (x ∷ xs) (suc i) = get_elem? xs i

  -- A write out of bounds changes nothing.
  abbrev pub set : List A → ℕ → A → List A
  set [] i v = []
  set (x ∷ xs) zero v = v ∷ xs
  set (x ∷ xs) (suc i) v = x ∷ set xs i v

  abbrev pub take : ℕ → List A → List A
  take zero xs = []
  take (suc n) [] = []
  take (suc n) (x ∷ xs) = x ∷ take n xs

  abbrev pub drop : ℕ → List A → List A
  drop zero xs = xs
  drop (suc n) [] = []
  drop (suc n) (x ∷ xs) = drop n xs

  pub length-append : (xs ys : List A) → length (xs ++ ys) ≡ length xs + length ys
  length-append [] ys = omega arith
  length-append (x ∷ xs) ys = omega (arith, length-append xs ys)

  abbrev pub any : (A → Bool) → List A → Bool
  any p [] = false
  any p (x ∷ xs) = p x || any p xs

  abbrev pub all : (A → Bool) → List A → Bool
  all p [] = true
  all p (x ∷ xs) = p x && all p xs

  -- `Iterator::filter` and `Vec::retain`
  abbrev pub filter : (A → Bool) → List A → List A
  filter p [] = []
  filter p (x ∷ xs) = let rest = filter p xs in if p x then x ∷ rest else rest

  abbrev pub All {κ} : (A → Type κ) → List A → Type κ
  All P [] = Unit
  All P (x ∷ xs) = P x × All P xs

-- `split('/')`: one piece more than there are separators.
abbrev pub cons_head : ℕ → List Bytes → List Bytes
cons_head b [] = (b ∷ []) ∷ []
cons_head b (p ∷ ps) = (b ∷ p) ∷ ps

abbrev pub split_on : ℕ → Bytes → List Bytes
split_on sep [] = [] ∷ []
split_on sep (b ∷ bs) =
    let rest = split_on sep bs in if nat_beq b sep then [] ∷ rest else cons_head b rest

-- `path.split('/').filter(|c| !c.is_empty())`
abbrev pub path_components : Bytes → List Bytes
path_components path = filter (λ c. not (is_empty c)) (split_on b'/' path)

module _ {ℓ} {A : Type ℓ} where
  pub get_elem?-set :
      (xs : List A) (i j : ℕ) (v : A)
      → get_elem? (set xs i v) j ≡ (
          if nat_beq i j
          then (elim (get_elem? xs j) [ none ↦ none | some x ↦ some v ])
          else get_elem? xs j)
  get_elem?-set [] i j v = ground arith
  get_elem?-set (x ∷ xs) zero zero v = refl
  get_elem?-set (x ∷ xs) zero (suc j) v = ground arith
  get_elem?-set (x ∷ xs) (suc i) zero v = ground arith
  get_elem?-set (x ∷ xs) (suc i) (suc j) v = ground (arith, get_elem?-set xs i j v)

  -- A new last element, read at every index.
  pub get_elem?-append_last :
      (xs : List A) (v : A) (j : ℕ)
      → get_elem? (xs ++ v ∷ []) j ≡ (if nat_beq j (length xs) then some v else get_elem? xs j)
  get_elem?-append_last [] v zero = refl
  get_elem?-append_last [] v (suc j) = ground arith
  get_elem?-append_last (x ∷ xs) v zero = ground arith
  get_elem?-append_last (x ∷ xs) v (suc j) = ground (arith, get_elem?-append_last xs v j)

  pub get_elem?_last : (xs : List A) → get_elem? xs (length xs) ≡ none
  get_elem?_last [] = refl
  get_elem?_last (x ∷ xs) = get_elem?_last xs

-- ===== src/Base/HashMap.antt =====
-- `std::collections::HashMap` and `HashSet`: association lists with a key at most once. A map
-- iterates in the order of its list; the std order is unspecified.
use mathlib.Core.Path.{◌≡◌, refl}
use mathlib.Core.List.{List, [], ◌∷◌}
use mathlib.Core.Bool.{Bool, not}
use mathlib.Core.Option.{Option, none, some}
use native.Mathlib.Omega.{arith}
use ncda.Base.Tests.{is_some, PartialEq, if◌then◌else◌}

abbrev pub HashMap {ℓ} : Type ℓ → Type ℓ → Type ℓ
HashMap K V = List (K × V)

module _ {ℓ} {K : Type ℓ} {V : Type ℓ} where
  abbrev pub keys : HashMap K V → List K
  keys [] = []
  keys ((k, v) ∷ m) = k ∷ keys m

  -- `retain`, by a test of the key
  abbrev pub retain : (K → Bool) → HashMap K V → HashMap K V
  retain p [] = []
  retain p ((k, v) ∷ m) = let rest = retain p m in if p k then (k, v) ∷ rest else rest

module _ {ℓ} {K : Type ℓ} {V : Type ℓ} ⦃e : PartialEq K⦄ where
  abbrev pub get : K → HashMap K V → Option V
  get k [] = none
  get k ((j, v) ∷ m) = if e.eq j k then some v else get k m

  abbrev pub insert : K → V → HashMap K V → HashMap K V
  insert k v [] = (k, v) ∷ []
  insert k v ((j, w) ∷ m) = if e.eq j k then (j, v) ∷ m else (j, w) ∷ insert k v m

  abbrev pub remove : K → HashMap K V → HashMap K V
  remove k = retain (λ j. not (e.eq j k))

  abbrev pub contains_key : K → HashMap K V → Bool
  contains_key k m = is_some (get k m)

  pub get-insert :
      (k j : K) (v : V) (m : HashMap K V)
      → get j (insert k v m) ≡ (if e.eq k j then some v else get j m)
  get-insert k j v [] = refl
  get-insert k j v ((i, w) ∷ m) =
      ground (arith, e.eq_iff k j, e.eq_iff i k, e.eq_iff i j, get-insert k j v m)

  pub get-retain :
      (p : K → Bool) (k : K) (m : HashMap K V)
      → get k (retain p m) ≡ (if p k then get k m else none)
  get-retain p k [] = ground arith
  get-retain p k ((i, w) ∷ m) = ground (arith, e.eq_iff i k, get-retain p k m)

  pub get-remove :
      (k j : K) (m : HashMap K V) → get j (remove k m) ≡ (if e.eq k j then none else get j m)
  get-remove k j m =
      ground (arith, get-retain (λ (i : K). not (e.eq i k)) j m, e.eq_iff k j, e.eq_iff j k)

-- ===== src/Base/Order.antt =====
-- `Ordering` and the stable `sort_by` of slices.
use Prim.Native.Nat.{ℕ, compare, Ordering, lt, eq, gt}
use mathlib.Core.Path.{◌≡◌, refl, ◌∙◌}
use mathlib.Core.Logic.{◌≢◌}
use mathlib.Core.Bool.{Bool}
use mathlib.Core.List.{List, [], ◌∷◌}
use native.Mathlib.Omega.{arith}
use ncda.Base.Lists.{Bytes, length, filter, All}

abbrev pub reverse_order : Ordering → Ordering
reverse_order lt = gt
reverse_order eq = eq
reverse_order gt = lt

abbrev pub then_with : Ordering → Ordering → Ordering
then_with lt second = lt
then_with eq second = second
then_with gt second = gt

-- `cmp` of strings
abbrev pub compare_bytes : Bytes → Bytes → Ordering
compare_bytes [] [] = eq
compare_bytes [] (y ∷ ys) = lt
compare_bytes (x ∷ xs) [] = gt
compare_bytes (x ∷ xs) (y ∷ ys) = then_with (compare x y) (compare_bytes xs ys)

module _ {ℓ} {A : Type ℓ} (order : A → A → Ordering) where
  -- Before the first element that is not less: equal ones keep their order.
  abbrev pub insert_sorted : A → List A → List A
  insert_sorted x [] = x ∷ []
  insert_sorted x (y ∷ ys) =
      let rest = insert_sorted x ys in elim (order x y) [ gt ↦ y ∷ rest | _ ↦ x ∷ y ∷ ys ]

  abbrev pub sort_by : List A → List A
  sort_by [] = []
  sort_by (x ∷ xs) = insert_sorted x (sort_by xs)

  -- Every element is at most the next.
  abbrev pub IsSorted : List A → Type 0
  IsSorted [] = Unit
  IsSorted (x ∷ []) = Unit
  IsSorted (x ∷ y ∷ ys) = (order x y ≢ gt) × IsSorted (y ∷ ys)

pub compare-reverse : (a b : ℕ) → compare b a ≡ reverse_order (compare a b)
compare-reverse a b = ground arith

pub compare_bytes-reverse :
    (xs ys : Bytes) → compare_bytes ys xs ≡ reverse_order (compare_bytes xs ys)
compare_bytes-reverse [] [] = refl
compare_bytes-reverse [] (y ∷ ys) = refl
compare_bytes-reverse (x ∷ xs) [] = refl
compare_bytes-reverse (x ∷ xs) (y ∷ ys) =
    ground (arith, compare_bytes-reverse xs ys, compare-reverse x y)

-- How many elements pass a test.
abbrev pub count {ℓ} : {A : Type ℓ} → (A → Bool) → List A → ℕ
count p xs = length (filter p xs)

module _ {ℓ} {A : Type ℓ} (order : A → A → Ordering) where
  count-insert_sorted :
      (p : A → Bool) (x : A) (xs : List A) → count p (insert_sorted order x xs) ≡ count p (x ∷ xs)
  count-insert_sorted p x [] = refl
  count-insert_sorted p x (y ∷ ys) = by_order (count-insert_sorted p x ys) (order x y)
    where
      by_order :
          count p (insert_sorted order x ys) ≡ count p (x ∷ ys)
          → (o : Ordering)
          → count p (elim o [ gt ↦ y ∷ insert_sorted order x ys | _ ↦ x ∷ y ∷ ys ])
            ≡ count p (x ∷ y ∷ ys)
      by_order below lt = refl
      by_order below eq = refl
      by_order below gt = ground (arith, below)

  -- Sorting keeps the elements: each test is passed as often.
  pub count-sort_by : (p : A → Bool) (xs : List A) → count p (sort_by order xs) ≡ count p xs
  count-sort_by p [] = refl
  count-sort_by p (x ∷ xs) =
      count-insert_sorted p x (sort_by order xs) ∙ ground (arith, count-sort_by p xs)

  -- What holds of all elements holds of all elements of the sorted list.
  All-insert_sorted :
      (P : A → Type 0) (x : A) (xs : List A) → P x → All P xs → All P (insert_sorted order x xs)
  All-insert_sorted P x [] h hs = (h, tt)
  All-insert_sorted P x (y ∷ ys) h (k, ks) = by_order (All-insert_sorted P x ys h ks) (order x y)
    where
      by_order :
          All P (insert_sorted order x ys)
          → (o : Ordering) → All P (elim o [ gt ↦ y ∷ insert_sorted order x ys | _ ↦ x ∷ y ∷ ys ])
      by_order below lt = (h, (k, ks))
      by_order below eq = (h, (k, ks))
      by_order below gt = (k, below)

  pub All-sort_by : (P : A → Type 0) (xs : List A) → All P xs → All P (sort_by order xs)
  All-sort_by P [] h = tt
  All-sort_by P (x ∷ xs) (h, hs) = All-insert_sorted P x (sort_by order xs) h (All-sort_by P xs hs)

  module _ (reverse : (a b : A) → order b a ≡ reverse_order (order a b)) where
    after_greater : (x y : A) → order x y ≡ gt → order y x ≢ gt
    after_greater x y h k = ground (arith, h, k, reverse x y)

    insert_after :
        (y x : A) (ys : List A)
        → order y x ≢ gt
        → IsSorted order (y ∷ ys)
        → IsSorted order (y ∷ insert_sorted order x ys)
    insert_after y x [] h hs = (h, tt)
    insert_after y x (z ∷ zs) h (k, ks) =
        by_order (λ z_x. insert_after z x zs z_x ks) (order x z) refl
      where
        by_order :
            (order z x ≢ gt → IsSorted order (z ∷ insert_sorted order x zs))
            → (o : Ordering) → order x z ≡ o
            → IsSorted order (y ∷ elim o [ gt ↦ z ∷ insert_sorted order x zs | _ ↦ x ∷ z ∷ zs ])
        by_order below lt e = (h, ((λ g. ground (arith, e, g)), ks))
        by_order below eq e = (h, ((λ g. ground (arith, e, g)), ks))
        by_order below gt e = (k, below (after_greater x z e))

    insert_sorted-IsSorted :
        (x : A) (ys : List A) → IsSorted order ys → IsSorted order (insert_sorted order x ys)
    insert_sorted-IsSorted x [] hs = tt
    insert_sorted-IsSorted x (z ∷ zs) hs = by_order (order x z) refl
      where
        by_order :
            (o : Ordering)
            → order x z ≡ o
            → IsSorted order (elim o [ gt ↦ z ∷ insert_sorted order x zs | _ ↦ x ∷ z ∷ zs ])
        by_order lt e = ((λ g. ground (arith, e, g)), hs)
        by_order eq e = ((λ g. ground (arith, e, g)), hs)
        by_order gt e = insert_after z x zs (after_greater x z e) hs

    -- An order that its reverse agrees with sorts.
    pub sort_by-IsSorted : (xs : List A) → IsSorted order (sort_by order xs)
    sort_by-IsSorted [] = tt
    sort_by-IsSorted (x ∷ xs) = insert_sorted-IsSorted x (sort_by order xs) (sort_by-IsSorted xs)

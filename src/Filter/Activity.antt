-- ===== src/Filter/Activity.antt =====
-- The activity of a tree as one list, and its sum: what the filters of ncda/src/tui/filter.rs are
-- compared with.
use ncda.Base.{
  ℕ, ◌≡◌, refl, sym, ap, ◌∙◌, Bool, ◌||◌, List, [], ◌∷◌, ◌++◌, Bytes, any, filter, All, arith, ◌<◌,
  Bool-cases, inl, inr,
}
use ncda.Base.HashMap.{HashMap}
use ncda.Stats.{NodeStats, zero_stats, accumulate, total_ops}
use ncda.Stats.Laws.{accumulate_assoc, accumulate-zero_stats}
use ncda.Tree.{TreeNode, node, Children, nil, cons, info}
use ncda.Filter.{join_path}

-- What a process did at a path.
pub record Activity : Type 0 where
  pub path : Bytes
  pub pid : ℕ
  pub stats : NodeStats

abbrev pub activities_at : Bytes → HashMap ℕ NodeStats → List Activity
activities_at path [] = []
activities_at path ((pid, stats) ∷ rest) =
    record { path = path; pid = pid; stats = stats } ∷ activities_at path rest

unfoldable mutual
  pub activities : Bytes → TreeNode → List Activity
  activities path (node i cs) = activities_at path i.per_process ++ activities_below path cs

  pub activities_below : Bytes → Children → List Activity
  activities_below path nil = []
  activities_below path (cons k child cs) =
      activities (join_path path (info child).name) child ++ activities_below path cs

abbrev pub sum_from : NodeStats → List Activity → NodeStats
sum_from total [] = total
sum_from total (a ∷ rest) = sum_from (accumulate total a.stats) rest

-- Whoever appears in a tree has performed an operation.
abbrev pub IsActive : Activity → Type 0
IsActive a = 0 < total_ops a.stats

pub All-append :
    (xs ys : List Activity) → All IsActive (xs ++ ys) → All IsActive xs × All IsActive ys
All-append [] ys h = (tt, h)
All-append (x ∷ xs) ys (h, hs) = let (l, r) = All-append xs ys hs in ((h, l), r)

pub sum_from-append :
    (total : NodeStats) (xs ys : List Activity)
    → sum_from total (xs ++ ys) ≡ sum_from (sum_from total xs) ys
sum_from-append total [] ys = refl
sum_from-append total (x ∷ xs) ys = sum_from-append (accumulate total x.stats) xs ys

pub filter-append :
    (keep : Activity → Bool) (xs ys : List Activity)
    → filter keep (xs ++ ys) ≡ filter keep xs ++ filter keep ys
filter-append keep [] ys = refl
filter-append keep (x ∷ xs) ys = ground (arith, filter-append keep xs ys)

pub any-append :
    (p : Activity → Bool) (xs ys : List Activity) → any p (xs ++ ys) ≡ (any p xs || any p ys)
any-append p [] ys = refl
any-append p (x ∷ xs) ys = ground (arith, any-append p xs ys)

pub All-filter :
    (keep : Activity → Bool) (xs : List Activity) → All IsActive xs → All IsActive (filter keep xs)
All-filter keep [] h = tt
All-filter keep (x ∷ xs) (h, hs) = elim (Bool-cases (keep x)) [
  | inl e ↦ rw e (h, All-filter keep xs hs)
  | inr e ↦ rw e (All-filter keep xs hs)
]

sum_from-accumulate :
    (t a : NodeStats) (xs : List Activity)
    → sum_from (accumulate t a) xs ≡ accumulate t (sum_from a xs)
sum_from-accumulate t a [] = refl
sum_from-accumulate t a (x ∷ xs) =
    rw (accumulate_assoc t a x.stats) (sum_from-accumulate t (accumulate a x.stats) xs)

-- The sum of a list that is not empty, added at once.
pub sum_from-cons :
    (t : NodeStats) (x : Activity) (xs : List Activity)
    → sum_from t (x ∷ xs) ≡ accumulate t (sum_from zero_stats (x ∷ xs))
sum_from-cons t x xs =
    ap (λ s. sum_from s xs) (sym (accumulate-zero_stats t x.stats))
    ∙ sum_from-accumulate t (accumulate zero_stats x.stats) xs

active_accumulate : (a b : NodeStats) → (0 < total_ops a) → 0 < total_ops (accumulate a b)
unfolding total_ops accumulate
active_accumulate a b h = omega (arith, h)

active_accumulate_right : (a b : NodeStats) → (0 < total_ops b) → 0 < total_ops (accumulate a b)
unfolding total_ops accumulate
active_accumulate_right a b h = omega (arith, h)

active_sum : (t : NodeStats) (xs : List Activity) → 0 < total_ops t → 0 < total_ops (sum_from t xs)
active_sum t [] h = h
active_sum t (x ∷ xs) h = active_sum (accumulate t x.stats) xs (active_accumulate t x.stats h)

pub active_sum_cons :
    (x : Activity) (xs : List Activity) → IsActive x → 0 < total_ops (sum_from zero_stats (x ∷ xs))
active_sum_cons x xs h =
    active_sum (accumulate zero_stats x.stats) xs (active_accumulate_right zero_stats x.stats h)

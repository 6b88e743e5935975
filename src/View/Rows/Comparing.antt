-- ===== src/View/Rows/Comparing.antt =====
-- What it means that the rows of ncda/src/tui/flat_view.rs and the processes of ncda/src/process.rs
-- are in order, in terms of their numbers and names, and the comparisons of the code against it.
use Prim.Native.Nat.{compare, Ordering, lt, eq, gt}
use ncda.Base.{
  ℕ, ◌≤◌, ◌<◌, ◌≡◌, ◌≢◌, ◌⊎◌, refl, sym, subst, Bool, true, false, List, [], ◌∷◌, Bytes, arith, inl,
  inr,
}
use ncda.Base.Order.{reverse_order, then_with, compare_bytes, IsSorted, compare_bytes-reverse}
use ncda.Stats.{total_bytes, total_ops, avg_latency_ns}
use ncda.Process.{ProcessInfo}
use ncda.View.{SortBy, ProcessSort}
use ncda.View.Rows.{
  FlatRow, column_order, directed, name_order, row_order, process_column, process_order,
}

-- Byte by byte; a name comes before its continuations.
abbrev pub NameLe : Bytes → Bytes → Type 0
NameLe [] ys = Unit {0}
NameLe (x ∷ xs) [] = ⊥
NameLe (x ∷ xs) (y ∷ ys) = (x < y) ⊎ ((x ≡ y) × NameLe xs ys)

abbrev pub Numbers : Bool → ℕ → ℕ → Type 0
Numbers true x y = y ≤ x
Numbers false x y = x ≤ y

abbrev pub Names : Bool → Bytes → Bytes → Type 0
Names true xs ys = NameLe ys xs
Names false xs ys = NameLe xs ys

-- A number up or down, and then the name up.
abbrev pub ByNumber : Bool → ℕ → ℕ → FlatRow → FlatRow → Type 0
ByNumber desc x y a b = Numbers desc x y × (x ≡ y → NameLe a.name b.name)

abbrev pub RowLe : SortBy → Bool → FlatRow → FlatRow → Type 0
RowLe SortBy.total_bytes desc a b = ByNumber desc (total_bytes a.stats) (total_bytes b.stats) a b
RowLe SortBy.read_bytes desc a b = ByNumber desc a.stats.read_bytes b.stats.read_bytes a b
RowLe SortBy.write_bytes desc a b = ByNumber desc a.stats.write_bytes b.stats.write_bytes a b
RowLe SortBy.frequency desc a b = ByNumber desc (total_ops a.stats) (total_ops b.stats) a b
RowLe SortBy.latency desc a b = ByNumber desc (avg_latency_ns a.stats) (avg_latency_ns b.stats) a b
RowLe SortBy.name desc a b = Names desc a.name b.name

-- A number up or down, and then the process number up.
abbrev pub ByPid : Bool → ℕ → ℕ → ProcessInfo → ProcessInfo → Type 0
ByPid desc x y a b = Numbers desc x y × (x ≡ y → a.pid ≤ b.pid)

abbrev pub ProcessLe : ProcessSort → Bool → ProcessInfo → ProcessInfo → Type 0
ProcessLe ProcessSort.by_total_bytes desc a b =
    ByPid desc (total_bytes a.stats) (total_bytes b.stats) a b
ProcessLe ProcessSort.by_read_bytes desc a b = ByPid desc a.stats.read_bytes b.stats.read_bytes a b
ProcessLe ProcessSort.by_write_bytes desc a b =
    ByPid desc a.stats.write_bytes b.stats.write_bytes a b
ProcessLe ProcessSort.by_operations desc a b =
    ByPid desc (total_ops a.stats) (total_ops b.stats) a b
ProcessLe ProcessSort.by_latency desc a b =
    ByPid desc (avg_latency_ns a.stats) (avg_latency_ns b.stats) a b
ProcessLe ProcessSort.by_pid desc a b = Numbers desc a.pid b.pid
ProcessLe ProcessSort.by_name desc a b =
    Names desc a.comm b.comm × (a.comm ≡ b.comm → a.pid ≤ b.pid)

-- Each element and the next are related.
abbrev pub Chain : {A : Type 0} → (A → A → Type 0) → List A → Type 0
Chain R [] = Unit {0}
Chain R (x ∷ []) = Unit {0}
Chain R (x ∷ y ∷ ys) = R x y × Chain R (y ∷ ys)

pub IsSorted-Chain :
    {A : Type 0} (order : A → A → Ordering) (R : A → A → Type 0)
    → ((a b : A) → order a b ≢ gt → R a b)
    → (xs : List A) → IsSorted order xs
    → Chain R xs
IsSorted-Chain order R h [] s = tt
IsSorted-Chain order R h (x ∷ []) s = tt
IsSorted-Chain order R h (x ∷ y ∷ ys) s = (h x y s.0, IsSorted-Chain order R h (y ∷ ys) s.1)

compare-le : (x y : ℕ) → compare x y ≢ gt → x ≤ y
compare-le x y h = by_order (compare x y) refl h
  where
    by_order : (o : Ordering) → compare x y ≡ o → o ≢ gt → x ≤ y
    by_order lt e h = ground (arith, e)
    by_order eq e h = ground (arith, e)
    by_order gt e h = absurd (h refl)

then_with-first : (o p : Ordering) → then_with o p ≢ gt → o ≢ gt
then_with-first lt p h = λ e. cc
then_with-first eq p h = λ e. cc
then_with-first gt p h = h

directed-Numbers : (desc : Bool) (x y : ℕ) → directed desc (compare x y) ≢ gt → Numbers desc x y
directed-Numbers false x y h = compare-le x y h
directed-Numbers true x y h = by_order (compare x y) refl h
  where
    by_order : (o : Ordering) → compare x y ≡ o → reverse_order o ≢ gt → y ≤ x
    by_order lt e h = absurd (h refl)
    by_order eq e h = ground (arith, e)
    by_order gt e h = ground (arith, e)

number-tie :
    (desc : Bool) (x y : ℕ) (p : Ordering)
    → then_with (directed desc (compare x y)) p ≢ gt
    → x ≡ y
    → p ≢ gt
number-tie desc x y p h e =
    by_direction desc (subst (λ o. then_with (directed desc o) p ≢ gt) same h)
  where
    same : compare x y ≡ eq
    same = ground (arith, e)

    by_direction : (desc : Bool) → then_with (directed desc eq) p ≢ gt → p ≢ gt
    by_direction true k = k
    by_direction false k = k

compare_bytes-NameLe : (xs ys : Bytes) → compare_bytes xs ys ≢ gt → NameLe xs ys
compare_bytes-NameLe [] ys h = tt
compare_bytes-NameLe (x ∷ xs) [] h = absurd (h refl)
compare_bytes-NameLe (x ∷ xs) (y ∷ ys) h =
    by_order (compare_bytes-NameLe xs ys) (compare x y) refl h
  where
    by_order :
        (compare_bytes xs ys ≢ gt → NameLe xs ys)
        → (o : Ordering) → compare x y ≡ o
        → then_with o (compare_bytes xs ys) ≢ gt
        → (x < y) ⊎ ((x ≡ y) × NameLe xs ys)
    by_order rest lt e h = inl (ground (arith, e))
    by_order rest eq e h = inr (ground (arith, e), rest h)
    by_order rest gt e h = absurd (h refl)

compare_bytes-same : (xs : Bytes) → compare_bytes xs xs ≡ eq
compare_bytes-same [] = refl
compare_bytes-same (x ∷ xs) = ground (arith, compare_bytes-same xs)

directed-Names :
    (desc : Bool) (xs ys : Bytes) → directed desc (compare_bytes xs ys) ≢ gt → Names desc xs ys
directed-Names false xs ys h = compare_bytes-NameLe xs ys h
directed-Names true xs ys h =
    compare_bytes-NameLe ys xs (subst (λ o. o ≢ gt) (sym (compare_bytes-reverse xs ys)) h)

name-tie :
    (desc : Bool) (xs ys : Bytes) (p : Ordering)
    → then_with (directed desc (compare_bytes xs ys)) p ≢ gt
    → xs ≡ ys
    → p ≢ gt
name-tie desc xs ys p h e =
    by_direction desc (subst (λ o. then_with (directed desc o) p ≢ gt) same h)
  where
    same : compare_bytes xs ys ≡ eq
    same = subst (λ zs. compare_bytes xs zs ≡ eq) e (compare_bytes-same xs)

    by_direction : (desc : Bool) → then_with (directed desc eq) p ≢ gt → p ≢ gt
    by_direction true k = k
    by_direction false k = k

row_order-ByNumber :
    (desc : Bool) (x y : ℕ) (a b : FlatRow)
    → then_with (directed desc (compare x y)) (compare_bytes a.name b.name) ≢ gt
    → ByNumber desc x y a b
row_order-ByNumber desc x y a b h = (
  directed-Numbers desc x y (then_with-first _ _ h),
  λ e. compare_bytes-NameLe a.name b.name (number-tie desc x y _ h e),
)

pub row_order-RowLe :
    (sort : SortBy) (desc : Bool) (a b : FlatRow)
    → row_order sort desc a b ≢ gt
    → RowLe sort desc a b
unfolding name_order column_order
row_order-RowLe SortBy.total_bytes desc a b h = row_order-ByNumber desc _ _ a b h
row_order-RowLe SortBy.read_bytes desc a b h = row_order-ByNumber desc _ _ a b h
row_order-RowLe SortBy.write_bytes desc a b h = row_order-ByNumber desc _ _ a b h
row_order-RowLe SortBy.frequency desc a b h = row_order-ByNumber desc _ _ a b h
row_order-RowLe SortBy.latency desc a b h = row_order-ByNumber desc _ _ a b h
row_order-RowLe SortBy.name desc a b h = directed-Names desc a.name b.name (then_with-first _ _ h)

process_order-ByPid :
    (desc : Bool) (x y : ℕ) (a b : ProcessInfo)
    → then_with (directed desc (compare x y)) (compare a.pid b.pid) ≢ gt
    → ByPid desc x y a b
process_order-ByPid desc x y a b h = (
  directed-Numbers desc x y (then_with-first _ _ h),
  λ e. compare-le a.pid b.pid (number-tie desc x y _ h e),
)

pub process_order-ProcessLe :
    (sort : ProcessSort) (desc : Bool) (a b : ProcessInfo)
    → process_order sort desc a b ≢ gt
    → ProcessLe sort desc a b
unfolding process_order process_column
process_order-ProcessLe ProcessSort.by_total_bytes desc a b h = process_order-ByPid desc _ _ a b h
process_order-ProcessLe ProcessSort.by_read_bytes desc a b h = process_order-ByPid desc _ _ a b h
process_order-ProcessLe ProcessSort.by_write_bytes desc a b h = process_order-ByPid desc _ _ a b h
process_order-ProcessLe ProcessSort.by_operations desc a b h = process_order-ByPid desc _ _ a b h
process_order-ProcessLe ProcessSort.by_latency desc a b h = process_order-ByPid desc _ _ a b h
process_order-ProcessLe ProcessSort.by_pid desc a b h =
    directed-Numbers desc a.pid b.pid (then_with-first _ _ h)
process_order-ProcessLe ProcessSort.by_name desc a b h = (
  directed-Names desc a.comm b.comm (then_with-first _ _ h),
  λ e. compare-le a.pid b.pid (name-tie desc a.comm b.comm _ h e),
)

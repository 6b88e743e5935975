-- ===== src/App/Batches/Active.antt =====
-- `positions` leads to live groups of its keys: the program says so in two `expect`s.
use ncda.Base.{
  ℕ, ◌≡◌, refl, Option, none, some, [], ◌∷◌, ◌++◌, length, set, get_elem?, get_elem?-set,
  get_elem?-append_last, get_elem?_last, Option-cases, inl, inr, arith,
}
use ncda.Base.HashMap.{get, insert, remove, get-insert, get-remove}
use ncda.Procfs.{Procfs}
use ncda.App.{AppState}
use ncda.App.Groups.{
  IoKey, io_key_eq, io_key_beq_iff, IoGroup, Batch, empty_batch, group_at, accumulate_io_group,
  new_group, record_in_group,
}
use ncda.App.Batches.{flush_io_key}

-- The key of the group at an index.
abbrev pub key_of : Option IoGroup → Option IoKey
key_of none = none
key_of (some g) = some g.key

abbrev pub IsActive : Batch → Type 0
IsActive b = (key : IoKey) (i : ℕ) → get key b.positions ≡ some i → key_of (group_at b i) ≡ some key

-- A step ends without a panic, in a state where `P` holds.
abbrev pub Succeeds {ℓ} : {A : Type ℓ} → (A → Type 0) → Option A → Type 0
Succeeds P none = ⊥
Succeeds P (some a) = P a

pub empty_batch-IsActive : IsActive empty_batch
empty_batch-IsActive key i h = cc

added :
    (key : IoKey) (bytes latency_ns observed_at : ℕ) (b : Batch)
    → IsActive b
    → (k : IoKey) (i : ℕ) → get k (insert key (length b.groups) b.positions) ≡ some i
    → key_of
        (elim (get_elem? (b.groups ++ some (new_group key bytes latency_ns observed_at) ∷ []) i) [
          | none ↦ none
          | some g ↦ g
        ])
      ≡ some k
unfolding new_group
added key bytes latency_ns observed_at b active k i h = ground (
  arith,
  active k i,
  io_key_beq_iff key k,
  get-insert key k (length b.groups) b.positions,
  get_elem?-append_last b.groups (some (new_group key bytes latency_ns observed_at)) i,
  get_elem?_last b.groups,
)

joined :
    (key : IoKey) (i : ℕ) (g g' : IoGroup) (b : Batch)
    → IsActive b
    → get key b.positions ≡ some i
    → group_at b i ≡ some g
    → g'.key ≡ g.key
    → (k : IoKey) (j : ℕ) → get k b.positions ≡ some j
    → key_of (elim (get_elem? (set b.groups i (some g')) j) [ none ↦ none | some x ↦ x ]) ≡ some k
joined key i g g' b active e live same k j h =
    ground (arith, active k j, active key i, get_elem?-set b.groups i j (some g'))

-- An event joins the group of its key, or makes it.
pub accumulate_io_group-IsActive :
    (key : IoKey) (bytes latency_ns observed_at : ℕ) (b : Batch)
    → IsActive b
    → Succeeds IsActive (accumulate_io_group key bytes latency_ns observed_at b)
unfolding accumulate_io_group
accumulate_io_group-IsActive key bytes latency_ns observed_at b active =
    elim (Option-cases (get key b.positions)) [
      | inl e ↦
          rw (e, accumulate_io_group)
            (λ k i h. added key bytes latency_ns observed_at b active k i h)
      | inr (i, e) ↦ elim (Option-cases (group_at b i)) [
        | inl dead ↦ absurd (ground (arith, active key i))
        | inr (g, live) ↦
            rw (e, live, accumulate_io_group)
              (λ k j h.
                joined key i g (record_in_group bytes latency_ns g) b active e live
                  (unfold record_in_group in refl) k j h)
      ]
    ]

flushed :
    (key : IoKey) (i : ℕ) (g : IoGroup) (b : Batch)
    → IsActive b
    → get key b.positions ≡ some i
    → group_at b i ≡ some g
    → IsActive (record { groups = set b.groups i none; positions = remove key b.positions })
flushed key i g b active e live k j h = ground (
  arith,
  active k j,
  active key i,
  io_key_beq_iff key k,
  get-remove key k b.positions,
  get_elem?-set b.groups i j none,
)

pub flush_io_key-IsActive :
    (proc : Procfs) (key : IoKey) (s : AppState) (b : Batch)
    → IsActive b
    → Succeeds (λ sb. IsActive sb.1) (flush_io_key proc key (s, b))
unfolding flush_io_key
flush_io_key-IsActive proc key s b active = elim (Option-cases (get key b.positions)) [
  | inl e ↦ rw (e, flush_io_key) active
  | inr (i, e) ↦ elim (Option-cases (group_at b i)) [
    | inl dead ↦ absurd (ground (arith, active key i))
    | inr (g, live) ↦ rw (e, live, flush_io_key) (flushed key i g b active e live)
  ]
]

-- ===== src/App/Groups.antt =====
-- `IoKey`, `IoGroup` and `accumulate_io_group` of ncda/src/tui/app.rs: the successful reads and
-- writes of a batch, one group for each descriptor and direction. `none` is a panic: an index that
-- leads to no group.
use ncda.Base.{
  ℕ, ◌≡◌, ◌↔◌, max, Bool, true, ◌&&◌, Option, none, some, List, [], ◌∷◌, ◌++◌, length, get_elem?,
  set, nat_beq, saturating_add, PartialEq, arith,
}
use ncda.Base.HashMap.{HashMap, get, insert}
use ncda.Stats.{NodeStats, OpKind, open_op, read_op, write_op, close_op, for_operations}

pub record IoKey : Type 0 where
  pub pid : ℕ
  pub fd : ℕ
  pub op : OpKind

abbrev pub op_code : OpKind → ℕ
op_code open_op = 0
op_code read_op = 1
op_code write_op = 2
op_code close_op = 3

abbrev pub io_key_beq : IoKey → IoKey → Bool
io_key_beq a b = nat_beq a.pid b.pid && nat_beq a.fd b.fd && nat_beq (op_code a.op) (op_code b.op)

op_code-injective : (a b : OpKind) → op_code a ≡ op_code b → a ≡ b
op_code-injective a b h = ground arith

pub io_key_beq_iff : (a b : IoKey) → (io_key_beq a b ≡ true) ↔ (a ≡ b)
io_key_beq_iff a b = ground (arith, op_code-injective a.op b.op)

-- `#[derive(PartialEq)]`
instance abbrev pub io_key_eq : PartialEq IoKey
io_key_eq = record { eq = io_key_beq; eq_iff = io_key_beq_iff }

pub record IoGroup : Type 0 where
  pub key : IoKey
  pub bytes : ℕ
  pub operations : ℕ
  pub total_latency_ns : ℕ
  pub max_latency_ns : ℕ
  pub observed_at : ℕ

unfoldable pub new_group : IoKey → ℕ → ℕ → ℕ → IoGroup
new_group key bytes latency_ns observed_at = record {
  key = key;
  bytes = bytes;
  operations = 1;
  total_latency_ns = latency_ns;
  max_latency_ns = latency_ns;
  observed_at = observed_at;
}

unfoldable pub record_in_group : ℕ → ℕ → IoGroup → IoGroup
record_in_group bytes latency_ns g = record g {
  bytes = saturating_add g.bytes bytes;
  operations = saturating_add g.operations 1;
  total_latency_ns = saturating_add g.total_latency_ns latency_ns;
  max_latency_ns = max g.max_latency_ns latency_ns;
}

unfoldable pub group_stats : IoGroup → NodeStats
group_stats g = for_operations g.key.op g.bytes g.operations g.total_latency_ns g.max_latency_ns

-- The groups of a batch, in the order of their first event, and where each key's group stands.
pub record Batch : Type 0 where
  pub groups : List (Option IoGroup)
  pub positions : HashMap IoKey ℕ

abbrev pub empty_batch : Batch
empty_batch = record { groups = []; positions = [] }

-- `groups[index]`, which must be a group
abbrev pub group_at : Batch → ℕ → Option IoGroup
group_at b i = elim (get_elem? b.groups i) [ none ↦ none | some g ↦ g ]

unfoldable pub accumulate_io_group : IoKey → ℕ → ℕ → ℕ → Batch → Option Batch
accumulate_io_group key bytes latency_ns observed_at b = elim (get key b.positions) [
  | some i ↦ elim (group_at b i) [
    | none ↦ none
    | some g ↦
        some (record b { groups = set b.groups i (some (record_in_group bytes latency_ns g)) })
  ]
  | none ↦ some (record {
    groups = b.groups ++ some (new_group key bytes latency_ns observed_at) ∷ [];
    positions = insert key (length b.groups) b.positions;
  })
]

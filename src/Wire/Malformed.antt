-- ===== src/Wire/Malformed.antt =====
-- `parse_event` of ncda/src/bpf.rs on any bytes: what it lets through.
use ncda.Base.{
  subst, ℕ, zero, suc, ◌^◌, ◌<◌, ◌≤◌, ◌≡◌, refl, Bool, true, false, not, ◌&&◌, ◌||◌, Option, none,
  some, [], ◌∷◌, Bytes, length, All, arith, any, take, drop, ltb, nat_beq, if◌then◌else◌,
}
use native.Mathlib.Nat.{pow-succ'}
use ncda.Wire.{
  BpfEvent, event_dup, event_close_range, max_fname_len, event_open, event_read, event_write,
  event_close, event_process_exec, event_process_exit, from_bytes, field_at, signed,
  has_read_failed, has_unknown_flags, parse_open_event, parse_io_event, parse_fd_event,
  parse_range_event, parse_process_event, parse_kind, parse_event, is_zero,
}
use ncda.Wire.Layout.{IsSigned, IsU32, IsU64, IsWire}

abbrev pub IsByte : ℕ → Type 0
IsByte b = b < 256

All-drop : (n : ℕ) (bytes : Bytes) → All IsByte bytes → All IsByte (drop n bytes)
All-drop zero bytes h = h
All-drop (suc n) [] h = h
All-drop (suc n) (b ∷ bytes) h = All-drop n bytes h.1

from_bytes-take : (n : ℕ) (bytes : Bytes) → All IsByte bytes → from_bytes (take n bytes) < 256 ^ n
from_bytes-take zero bytes h = omega arith
from_bytes-take (suc n) [] h = omega (arith, from_bytes-take n [] h, pow-succ' 256 n)
from_bytes-take (suc n) (b ∷ bytes) h =
    omega (arith, h.0, from_bytes-take n bytes h.1, pow-succ' 256 n)

field-bound :
    (offset size : ℕ) (bytes : Bytes) → All IsByte bytes → field_at bytes offset size < 256 ^ size
field-bound offset size bytes h = from_bytes-take size (drop offset bytes) (All-drop offset bytes h)

field-IsU32 : (offset : ℕ) (bytes : Bytes) → All IsByte bytes → IsU32 (field_at bytes offset 4)
field-IsU32 offset bytes h = field-bound offset 4 bytes h

field-IsU64 : (offset : ℕ) (bytes : Bytes) → All IsByte bytes → IsU64 (field_at bytes offset 8)
field-IsU64 offset bytes h = field-bound offset 8 bytes h

signed_32-IsSigned : (n : ℕ) → n < 2 ^ 32 → IsSigned (2 ^ 32) (signed (2 ^ 32) n)
signed_32-IsSigned n h = ground (arith, h)

signed_64-IsSigned : (n : ℕ) → n < 2 ^ 64 → IsSigned (2 ^ 64) (signed (2 ^ 64) n)
signed_64-IsSigned n h = ground (arith, h)

length-take : (n : ℕ) (bytes : Bytes) → length (take n bytes) ≤ n
length-take zero bytes = omega arith
length-take (suc n) [] = omega arith
length-take (suc n) (b ∷ bytes) = omega (arith, length-take n bytes)

no_zero : (path : Bytes) → any is_zero path ≡ false → All (λ b. 0 < b) path
no_zero [] h = tt
no_zero (b ∷ path) h = (ground (arith, h), no_zero path (ground (arith, h)))

-- An event that is parsed satisfies `P`.
abbrev Holds : (BpfEvent → Type 0) → Option BpfEvent → Type 0
Holds P none = Unit
Holds P (some event) = P event

guarded :
    (b : Bool) (o : Option BpfEvent)
    → (b ≡ false → Holds IsWire o)
    → Holds IsWire (if b then none else o)
guarded true o h = tt
guarded false o h = h refl

branches :
    (b : Bool) (o o' : Option BpfEvent)
    → (b ≡ true → Holds IsWire o)
    → Holds IsWire o'
    → Holds IsWire (if b then o else o')
branches true o o' h k = h refl
branches false o o' h k = k

fits :
    (n flags m : ℕ)
    → m ≤ n
    → (ltb max_fname_len n || has_unknown_flags flags) ≡ false
    → m ≤ max_fname_len
fits n flags m h e = ground (arith, h, e)

few : (n flags : ℕ) → (ltb max_fname_len n || has_unknown_flags flags) ≡ false → flags < 4
few n flags e = ground (arith, e)

empty :
    (n flags m : ℕ)
    → m ≤ n
    → (has_read_failed flags && not (nat_beq n 0)) ≡ false
    → has_read_failed flags ≡ true
    → m ≡ 0
empty n flags m h e failed = ground (arith, h, e, failed)

first_false : (a b : Bool) → (a || b) ≡ false → a ≡ false
first_false a b h = ground arith

module _ (bytes : Bytes) (h : All IsByte bytes) where
  process-IsWire : (kind : ℕ) → Holds IsWire (parse_process_event bytes kind)
  unfolding parse_process_event IsWire
  process-IsWire kind = guarded (ltb (length bytes) 16) _ λ long.
      branches (nat_beq kind event_process_exec) _ _
        (λ e. (field-IsU32 4 bytes h, field-IsU64 8 bytes h))
        (branches (nat_beq kind event_process_exit) _ _
          (λ e. (field-IsU32 4 bytes h, field-IsU64 8 bytes h)) tt)

  fd-IsWire : Holds IsWire (parse_fd_event bytes)
  unfolding parse_fd_event IsWire
  fd-IsWire = guarded (ltb (length bytes) 32) _ λ long. (
    field-IsU32 4 bytes h,
    field-IsU32 8 bytes h,
    field-IsU32 12 bytes h,
    field-IsU32 16 bytes h,
    field-IsU64 24 bytes h,
  )

  range-IsWire : Holds IsWire (parse_range_event bytes)
  unfolding parse_range_event IsWire
  range-IsWire = guarded (ltb (length bytes) 32) _ λ long. (
    field-IsU32 4 bytes h,
    field-IsU32 8 bytes h,
    field-IsU32 12 bytes h,
    field-IsU32 16 bytes h,
    field-IsU32 20 bytes h,
    field-IsU64 24 bytes h,
  )

  io-IsWire : (kind : ℕ) → Holds IsWire (parse_io_event bytes kind)
  unfolding parse_io_event IsWire
  io-IsWire kind =
      let pid = field-IsU32 4 bytes h in
      let tid = field-IsU32 8 bytes h in
      let fd = field-IsU32 12 bytes h in
      let result = signed_64-IsSigned (field_at bytes 16 8) (field-IsU64 16 bytes h) in
      let latency_ns = field-IsU64 24 bytes h in
      let emitted_ns = field-IsU64 32 bytes h in
      guarded (ltb (length bytes) 40) _ λ long.
        branches (nat_beq kind event_read) _ _
          (λ e. (pid, tid, fd, refl, result, latency_ns, emitted_ns))
          (branches (nat_beq kind event_write) _ _
            (λ e. (pid, tid, fd, refl, result, latency_ns, emitted_ns))
            (branches (nat_beq kind event_close) _ _ (λ e. (pid, tid, fd, emitted_ns)) tt))

  open-IsWire : Holds IsWire (parse_open_event bytes)
  unfolding parse_open_event IsWire
  open-IsWire =
      let fname_len = field_at bytes 16 2 in
      let flags = field_at bytes 18 2 in
      let path = take fname_len (drop 32 bytes) in
      let at_most : length path ≤ fname_len = length-take fname_len (drop 32 bytes) in
      guarded (ltb (length bytes) 288) _ λ long.
        guarded (ltb max_fname_len fname_len || has_unknown_flags flags) _ λ known.
          guarded (has_read_failed flags && not (nat_beq fname_len 0)) _ λ read.
            guarded (any is_zero path || _) _ λ clean. (
              field-IsU32 4 bytes h,
              field-IsU32 8 bytes h,
              field-IsU32 12 bytes h,
              signed_32-IsSigned (field_at bytes 20 4) (field-IsU32 20 bytes h),
              fits fname_len flags (length path) at_most known,
              no_zero path (first_false (any is_zero path) _ clean),
              few fname_len flags known,
              (λ failed. empty fname_len flags (length path) at_most read failed),
              field-IsU64 24 bytes h,
            )

  kind-IsWire : (kind : ℕ) → Holds IsWire (parse_kind bytes kind)
  unfolding parse_kind
  kind-IsWire kind =
      branches (nat_beq kind event_open) _ _ (λ e. open-IsWire)
        (branches (nat_beq kind event_read) _ _ (λ e. io-IsWire event_read)
          (branches (nat_beq kind event_write) _ _ (λ e. io-IsWire event_write)
            (branches (nat_beq kind event_close) _ _ (λ e. io-IsWire event_close)
              (branches (nat_beq kind event_dup) _ _ (λ e. fd-IsWire)
                (branches (nat_beq kind event_close_range) _ _ (λ e. range-IsWire)
                  (branches (nat_beq kind event_process_exec || nat_beq kind event_process_exit) _ _
                    (λ e. process-IsWire kind) tt))))))

  event-IsWire : Holds IsWire (parse_event bytes)
  unfolding parse_event
  event-IsWire = guarded (ltb (length bytes) 4) _ λ long. kind-IsWire (field_at bytes 0 4)

-- Whatever bytes a record holds, an event that is parsed from it is well-formed: each field has its
-- width, a path is at most 256 bytes, none of them zero, with known flags, and it is empty where
-- reading it failed; the bytes of a read or a write are its result, or none if that is negative.
pub parse_event-IsWire :
    (bytes : Bytes)
    → All IsByte bytes
    → (event : BpfEvent) → parse_event bytes ≡ some event
    → IsWire event
parse_event-IsWire bytes h event e = subst (Holds IsWire) e (event-IsWire bytes h)

-- ===== src/Wire/RoundTrip.antt =====
-- `parse_event` of ncda/src/bpf.rs on the records of ncda-common.
use ncda.Base.{
  ℕ, zero, suc, ◌+◌, ◌-◌, ◌^◌, ◌<◌, ◌≤◌, ◌≡◌, refl, true, false, not, ◌&&◌, ◌||◌, nat_beq_iff, some,
  [], ◌∷◌, ◌++◌, Bytes, length, length-append, All, ℤ, pos, arith, ap, ◌∙◌, any, take, drop, ltb,
  nat_beq,
}
use ncda.Wire.{
  BpfEvent, open_event, read_event, write_event, close_event, dup_event, close_range_event,
  process_exec, process_exit, max_fname_len, event_read, event_write, event_close,
  event_process_exec, event_process_exit, from_bytes, signed, has_read_failed, has_unknown_flags,
  parse_open_event, parse_io_event, parse_fd_event, parse_range_event, parse_process_event,
  parse_kind, parse_event, is_zero, is_not_zero,
}
use ncda.Wire.Layout.{
  to_bytes, IsSigned, unsigned, zeros, IsU32, IsU64, encode, open_bytes, io_bytes, fd_bytes,
  range_bytes, process_bytes, IsWire, IsIo, from_bytes-u16, from_bytes-u32, from_bytes-u64,
  signed-unsigned, unsigned-bound,
}

signed_field :
    (z : ℤ)
    → IsSigned (2 ^ 64) z
    → signed (2 ^ 64) (from_bytes (to_bytes 8 (unsigned (2 ^ 64) z))) ≡ z
signed_field z h =
    ap (signed (2 ^ 64))
      (from_bytes-u64 (unsigned (2 ^ 64) z) (unsigned-bound (2 ^ 64) z (omega arith) h))
    ∙ signed-unsigned (2 ^ 64) z h

round_process_exec :
    (pid emitted : ℕ)
    → IsU32 pid
    → IsU64 emitted
    → parse_event (process_bytes event_process_exec pid emitted) ≡ some (process_exec pid emitted)
unfolding parse_event parse_kind parse_process_event process_bytes
round_process_exec pid emitted p e = cc (from_bytes-u32 pid p, from_bytes-u64 emitted e)

round_process_exit :
    (pid emitted : ℕ)
    → IsU32 pid
    → IsU64 emitted
    → parse_event (process_bytes event_process_exit pid emitted) ≡ some (process_exit pid emitted)
unfolding parse_event parse_kind parse_process_event process_bytes
round_process_exit pid emitted p e = rw (from_bytes-u32 pid p, from_bytes-u64 emitted e) refl

round_dup :
    (pid tid old_fd new_fd emitted : ℕ)
    → IsWire (dup_event pid tid old_fd new_fd emitted)
    → parse_event (fd_bytes pid tid old_fd new_fd emitted)
      ≡ some (dup_event pid tid old_fd new_fd emitted)
unfolding parse_event parse_kind parse_fd_event fd_bytes IsWire
round_dup pid tid old_fd new_fd emitted (p, t, o, n, e) = cc (
  from_bytes-u32 pid p,
  from_bytes-u32 tid t,
  from_bytes-u32 old_fd o,
  from_bytes-u32 new_fd n,
  from_bytes-u64 emitted e,
)

round_range :
    (pid tid first_fd last_fd flags emitted : ℕ)
    → IsWire (close_range_event pid tid first_fd last_fd flags emitted)
    → parse_event (range_bytes pid tid first_fd last_fd flags emitted)
      ≡ some (close_range_event pid tid first_fd last_fd flags emitted)
unfolding parse_event parse_kind parse_range_event range_bytes IsWire
round_range pid tid first_fd last_fd flags emitted (p, t, f, l, g, e) = cc (
  from_bytes-u32 pid p,
  from_bytes-u32 tid t,
  from_bytes-u32 first_fd f,
  from_bytes-u32 last_fd l,
  from_bytes-u32 flags g,
  from_bytes-u64 emitted e,
)

-- A close is read whatever result its record carries.
pub round_close :
    (pid tid fd : ℕ) (result : ℤ) (emitted : ℕ)
    → IsWire (close_event pid tid fd emitted)
    → parse_event (io_bytes event_close pid tid fd result 0 emitted)
      ≡ some (close_event pid tid fd emitted)
unfolding parse_event parse_kind parse_io_event io_bytes IsWire
round_close pid tid fd result emitted (p, t, f, e) =
    cc (from_bytes-u32 pid p, from_bytes-u32 tid t, from_bytes-u32 fd f, from_bytes-u64 emitted e)

round_read :
    (pid tid fd bytes : ℕ) (result : ℤ) (latency emitted : ℕ)
    → IsIo pid tid fd bytes result latency emitted
    → parse_event (io_bytes event_read pid tid fd result latency emitted)
      ≡ some (read_event pid tid fd bytes result latency emitted)
unfolding parse_event parse_kind parse_io_event io_bytes
round_read pid tid fd bytes result latency emitted (p, t, f, b, r, l, e) = cc (
  b,
  from_bytes-u32 pid p,
  from_bytes-u32 tid t,
  from_bytes-u32 fd f,
  signed_field result r,
  from_bytes-u64 latency l,
  from_bytes-u64 emitted e,
)

round_write :
    (pid tid fd bytes : ℕ) (result : ℤ) (latency emitted : ℕ)
    → IsIo pid tid fd bytes result latency emitted
    → parse_event (io_bytes event_write pid tid fd result latency emitted)
      ≡ some (write_event pid tid fd bytes result latency emitted)
unfolding parse_event parse_kind parse_io_event io_bytes
round_write pid tid fd bytes result latency emitted (p, t, f, b, r, l, e) = cc (
  b,
  from_bytes-u32 pid p,
  from_bytes-u32 tid t,
  from_bytes-u32 fd f,
  signed_field result r,
  from_bytes-u64 latency l,
  from_bytes-u64 emitted e,
)

take-append : (xs ys : Bytes) → take (length xs) (xs ++ ys) ≡ xs
take-append [] ys = refl
take-append (x ∷ xs) ys = ap (λ zs. x ∷ zs) (take-append xs ys)

drop-empty : (n : ℕ) → drop {A = ℕ} n [] ≡ []
drop-empty zero = refl
drop-empty (suc n) = refl

drop-append : (xs ys : Bytes) → drop (length xs) (xs ++ ys) ≡ ys
drop-append [] ys = refl
drop-append (x ∷ xs) ys = drop-append xs ys

drop-add : (n m : ℕ) (xs : Bytes) → drop (n + m) xs ≡ drop m (drop n xs)
drop-add zero m xs = ap (λ k. drop k xs) (omega arith)
drop-add (suc n) m [] = ground (arith, drop-empty m, drop-empty (suc n + m))
drop-add (suc n) m (x ∷ xs) =
    let one_more : suc n + m ≡ suc (n + m) = omega arith in rw one_more (drop-add n m xs)

take-zeros : (n : ℕ) → any is_not_zero (take n (zeros n)) ≡ false
take-zeros zero = refl
take-zeros (suc n) = ground (arith, take-zeros n)

no_zero : (path : Bytes) → All (λ b. 0 < b) path → any is_zero path ≡ false
no_zero [] h = refl
no_zero (b ∷ path) (h, hs) = ground (arith, no_zero path hs)

length-zeros : (n : ℕ) → length (zeros n) ≡ n
length-zeros zero = refl
length-zeros (suc n) = ap suc (length-zeros n)

length-open :
    (pid tid fd : ℕ) (dirfd : ℤ) (path : Bytes) (flags emitted : ℕ)
    → length path ≤ max_fname_len
    → length (open_bytes pid tid fd dirfd path flags emitted) ≡ 288
unfolding open_bytes
length-open pid tid fd dirfd path flags emitted h = omega (
  arith,
  length-append path (zeros (max_fname_len - length path)),
  length-zeros (max_fname_len - length path),
)

known_flags :
    (path : Bytes) (flags : ℕ)
    → length path ≤ max_fname_len
    → flags < 4
    → (has_read_failed flags ≡ true → length path ≡ 0)
    → ((ltb max_fname_len (length path) || has_unknown_flags flags) ≡ false)
      × ((has_read_failed flags && not (nat_beq (length path) 0)) ≡ false)
known_flags path flags h small failed =
    (ground (arith, h, small), ground (arith, nat_beq_iff (length path) 0, failed))

round_open :
    (pid tid fd : ℕ) (dirfd : ℤ) (path : Bytes) (flags emitted : ℕ)
    → IsWire (open_event pid tid fd dirfd path flags emitted)
    → parse_event (open_bytes pid tid fd dirfd path flags emitted)
      ≡ some (open_event pid tid fd dirfd path flags emitted)
unfolding parse_event parse_kind parse_open_event open_bytes IsWire
round_open pid tid fd dirfd path flags emitted (p, t, f, d, l, nz, fl, failed, e) =
    rw
      (
        length-open pid tid fd dirfd path flags emitted l,
        from_bytes-u16 (length path) (omega arith),
        from_bytes-u16 flags (omega arith),
        (known_flags path flags l fl failed).0,
        (known_flags path flags l fl failed).1,
        take-append path (zeros (max_fname_len - length path)),
        drop-add 32 (length path) (open_bytes pid tid fd dirfd path flags emitted),
        drop-append path (zeros (max_fname_len - length path)),
        no_zero path nz,
        take-zeros (max_fname_len - length path),
        from_bytes-u32 pid p,
        from_bytes-u32 tid t,
        from_bytes-u32 fd f,
        from_bytes-u32 (unsigned (2 ^ 32) dirfd) (unsigned-bound (2 ^ 32) dirfd (omega arith) d),
        signed-unsigned (2 ^ 32) dirfd d,
        from_bytes-u64 emitted e,
      )
      refl

-- Each event that the kernel side's records can hold is read back from its bytes as it was written:
-- every kind, with negative results and directories, flagged and empty paths included.
pub parse_event-encode : (event : BpfEvent) → IsWire event → parse_event (encode event) ≡ some event
unfolding encode IsWire
parse_event-encode (open_event pid tid fd dirfd path flags emitted) h =
    round_open pid tid fd dirfd path flags emitted h
parse_event-encode (read_event pid tid fd bytes result latency emitted) h =
    round_read pid tid fd bytes result latency emitted h
parse_event-encode (write_event pid tid fd bytes result latency emitted) h =
    round_write pid tid fd bytes result latency emitted h
parse_event-encode (close_event pid tid fd emitted) h = round_close pid tid fd (pos 0) emitted h
parse_event-encode (dup_event pid tid old_fd new_fd emitted) h =
    round_dup pid tid old_fd new_fd emitted h
parse_event-encode (close_range_event pid tid first_fd last_fd flags emitted) h =
    round_range pid tid first_fd last_fd flags emitted h
parse_event-encode (process_exec pid emitted) (p, e) = round_process_exec pid emitted p e
parse_event-encode (process_exit pid emitted) (p, e) = round_process_exit pid emitted p e

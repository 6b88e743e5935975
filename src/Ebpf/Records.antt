-- ===== src/Ebpf/Records.antt =====
-- The records of ncda-ebpf/src/main.rs are those that the parser of ncda/src/bpf.rs reads.
use ncda.Base.{
  ℕ, zero, suc, ◌-◌, ◌^◌, ◌≤◌, ◌<◌, ◌≡◌, ◌⊎◌, inl, inr, refl, subst, sym, ap, ◌∙◌, true, Option,
  none, some, [], ◌∷◌, ◌++◌, Bytes, length, take, nat_eq, All, ℤ, arith,
}
use ncda.Wire.{
  BpfEvent, open_event, read_event, write_event, close_event, dup_event, close_range_event,
  process_exec, process_exit, max_fname_len, event_read, event_write, event_close,
  event_process_exec, event_process_exit, max_zero, parse_event, has_read_failed,
}
use ncda.Wire.Layout.{
  zeros, IsSigned, IsU32, IsU64, IsWire, encode, open_bytes, io_bytes, fd_bytes, range_bytes,
  process_bytes,
}
use ncda.Wire.RoundTrip.{parse_event-encode, round_close}
use ncda.Ebpf.Store.{OpenArgs, RwArgs, Context, pid_of, tid_of, result_u32}
use ncda.Ebpf.Exit.{fname_from, open_event_bytes}

-- The parser reads a record as a well-formed event.
abbrev pub Readable : Bytes → Type 0
Readable bytes = (event : BpfEvent) × ((parse_event bytes ≡ some event) × IsWire event)

-- What the helpers of the kernel answer, as they are documented: 64-bit words, and a name with no
-- zero before the one that ends it.
abbrev pub IsName : Option Bytes → Type 0
IsName none = Unit
IsName (some filename) = All (λ b. 0 < b) filename

pub record IsContext (ctx : Context) : Type 0 where
  pub pid_tgid : IsU64 ctx.pid_tgid
  pub now : IsU64 ctx.now
  pub result : IsSigned (2 ^ 64) ctx.result
  pub filename : IsName ctx.filename

encoded : (event : BpfEvent) → IsWire event → Readable (encode event)
encoded event h = (event, (parse_event-encode event h, h))

pub record IsRw (args : RwArgs) : Type 0 where
  pub ts : IsU64 args.ts
  pub fd : IsU32 args.fd
  pub kind : (args.kind ≡ event_read) ⊎ (args.kind ≡ event_write)

pub record IsOpen (args : OpenArgs) : Type 0 where
  pub fits : args.fname_len ≤ max_fname_len
  pub within : args.fname_len ≤ length args.fname
  pub clean : All (λ b. 0 < b) args.fname
  pub flags : args.fname_flags < 4
  pub failed : has_read_failed args.fname_flags ≡ true → args.fname_len ≡ 0
  pub dirfd : IsSigned (2 ^ 32) args.dirfd

fname-take :
    (n len : ℕ) (fname : Bytes)
    → len ≤ n
    → len ≤ length fname
    → fname_from n len fname ≡ take len fname ++ zeros (n - len)
unfolding fname_from
fname-take zero zero fname h k = refl
fname-take zero (suc len) fname h k = absurd (omega arith)
fname-take (suc n) zero fname h k =
    let one_more : suc n - 0 ≡ suc (n - 0) = omega arith in
    rw one_more (ap (λ s. 0 ∷ s) (fname-take n zero fname (omega arith) (omega arith)))
fname-take (suc n) (suc len) [] h k = absurd (omega arith)
fname-take (suc n) (suc len) (b ∷ fname) h k =
    let same : suc n - suc len ≡ n - len = omega arith in
    rw same (ap (λ s. b ∷ s) (fname-take n len fname (omega arith) (omega arith)))

length-take : (len : ℕ) (fname : Bytes) → len ≤ length fname → length (take len fname) ≡ len
length-take zero fname h = refl
length-take (suc len) [] h = absurd (omega arith)
length-take (suc len) (b ∷ fname) h = ap suc (length-take len fname (omega arith))

All-take : (len : ℕ) (fname : Bytes) → All (λ b. 0 < b) fname → All (λ b. 0 < b) (take len fname)
All-take zero fname h = tt
All-take (suc len) [] h = tt
All-take (suc len) (b ∷ fname) (h, hs) = (h, All-take len fname hs)

open_event-encode :
    (pid_tgid : ℕ) (result : ℤ) (now : ℕ) (args : OpenArgs)
    → IsOpen args
    → open_event_bytes pid_tgid result now args
      ≡ encode (
          open_event
            (pid_of pid_tgid)
            (tid_of pid_tgid)
            (result_u32 result)
            args.dirfd
            (take args.fname_len args.fname)
            args.fname_flags
            now)
unfolding open_event_bytes encode open_bytes
open_event-encode pid_tgid result now args h =
    rw
      (
        length-take args.fname_len args.fname h.within,
        fname-take max_fname_len args.fname_len args.fname h.fits h.within,
      )
      refl

module _ (ctx : Context) (c : IsContext ctx) where
  pub open-Readable :
      (args : OpenArgs)
      → IsOpen args
      → Readable (open_event_bytes ctx.pid_tgid ctx.result ctx.now args)
  unfolding IsWire
  open-Readable args h =
      let path = take args.fname_len args.fname in
      let len : length path ≡ args.fname_len = length-take args.fname_len args.fname h.within in
      subst Readable (sym (open_event-encode ctx.pid_tgid ctx.result ctx.now args h)) (
        encoded
          (open_event (pid_of ctx.pid_tgid) (tid_of ctx.pid_tgid) (result_u32 ctx.result) args.dirfd
            path args.fname_flags ctx.now)
          (
            omega arith,
            omega arith,
            omega arith,
            h.dirfd,
            omega (arith, len, h.fits),
            All-take args.fname_len args.fname h.clean,
            h.flags,
            (λ f. len ∙ h.failed f),
            c.now,
          ))

  pub io-Readable :
      (args : RwArgs) (latency : ℕ)
      → IsRw args
      → IsU64 latency
      → Readable (
          io_bytes args.kind
            (pid_of ctx.pid_tgid)
            (tid_of ctx.pid_tgid)
            args.fd
            ctx.result
            latency
            ctx.now)
  unfolding IsWire encode
  io-Readable args latency h l = elim h.kind [
    | inl e ↦ rw e (
        encoded
          (read_event (pid_of ctx.pid_tgid) (tid_of ctx.pid_tgid) args.fd (max_zero ctx.result)
            ctx.result latency ctx.now)
          (omega arith, omega arith, h.fd, refl, c.result, l, c.now))
    | inr e ↦ rw e (
        encoded
          (write_event (pid_of ctx.pid_tgid) (tid_of ctx.pid_tgid) args.fd (max_zero ctx.result)
            ctx.result latency ctx.now)
          (omega arith, omega arith, h.fd, refl, c.result, l, c.now))
  ]

  pub close-Readable :
      (fd : ℕ)
      → IsU32 fd
      → Readable
          (io_bytes event_close (pid_of ctx.pid_tgid) (tid_of ctx.pid_tgid) fd ctx.result 0 ctx.now)
  unfolding IsWire
  close-Readable fd h =
      let w : IsWire (close_event (pid_of ctx.pid_tgid) (tid_of ctx.pid_tgid) fd ctx.now) =
        (omega arith, omega arith, h, c.now) in
      (
        close_event (pid_of ctx.pid_tgid) (tid_of ctx.pid_tgid) fd ctx.now,
        (round_close (pid_of ctx.pid_tgid) (tid_of ctx.pid_tgid) fd ctx.result ctx.now w, w),
      )

  pub dup-Readable :
      (old_fd : ℕ)
      → IsU32 old_fd
      → Readable (
          fd_bytes
            (pid_of ctx.pid_tgid)
            (tid_of ctx.pid_tgid)
            old_fd
            (result_u32 ctx.result)
            ctx.now)
  unfolding IsWire encode
  dup-Readable old_fd h =
      encoded
        (dup_event (pid_of ctx.pid_tgid) (tid_of ctx.pid_tgid) old_fd (result_u32 ctx.result)
          ctx.now)
        (omega arith, omega arith, h, omega arith, c.now)

  pub range-Readable :
      (first_fd last_fd flags : ℕ)
      → IsU32 first_fd
      → IsU32 last_fd
      → IsU32 flags
      → Readable
          (range_bytes (pid_of ctx.pid_tgid) (tid_of ctx.pid_tgid) first_fd last_fd flags ctx.now)
  unfolding IsWire encode
  range-Readable first_fd last_fd flags f l g =
      encoded
        (close_range_event (pid_of ctx.pid_tgid) (tid_of ctx.pid_tgid) first_fd last_fd flags
          ctx.now)
        (omega arith, omega arith, f, l, g, c.now)

  pub exec-Readable : Readable (process_bytes event_process_exec (pid_of ctx.pid_tgid) ctx.now)
  unfolding IsWire encode
  exec-Readable = encoded (process_exec (pid_of ctx.pid_tgid) ctx.now) (omega arith, c.now)

  pub exit-Readable : Readable (process_bytes event_process_exit (pid_of ctx.pid_tgid) ctx.now)
  unfolding IsWire encode
  exit-Readable = encoded (process_exit (pid_of ctx.pid_tgid) ctx.now) (omega arith, c.now)

-- ===== src/Filter/Decimal.antt =====
-- Numbers of `u32` in decimal, as `parse::<u32>()` reads them: the process filter of
-- ncda/src/tui/filter.rs writes and reads them.
use ncda.Base.{
  ℕ, zero, suc, ◌+◌, ◌-◌, ◌*◌, ◌/◌, ◌%◌, ◌≤◌, ◌<◌, ◌≡◌, refl, sym, ap, ◌∙◌, true, false, some, [],
  ◌∷◌, Bytes, is_empty, All, arith, nat_beq, decimal, decimal_from, digits_from, unsigned_digits,
  parse_u32, u32_max, leb, ltb, Bool-cases, inl, inr,
}

-- The powers of ten.
abbrev tens : ℕ → ℕ
tens zero = 1
tens (suc k) = 10 * tens k

digits_from-digit :
    (n : ℕ) (acc : Bytes)
    → n ≤ u32_max
    → digits_from (n / 10) ((48 + n % 10) ∷ acc) ≡ digits_from n acc
unfolding digits_from
digits_from-digit n acc h =
    let same : n / 10 * 10 + (48 + n % 10 - 48) ≡ n = omega arith in
    let first : leb 48 (48 + n % 10) ≡ true = ground arith in
    let last : leb (48 + n % 10) 57 ≡ true = ground arith in
    let fits : leb n u32_max ≡ true = ground (arith, h) in rw (same, first, last, fits) refl

digits_from-decimal_from :
    (k n : ℕ) (acc : Bytes)
    → n < tens k
    → n ≤ u32_max
    → digits_from 0 (decimal_from k n acc) ≡ digits_from n acc
unfolding decimal_from
digits_from-decimal_from zero n acc h fits =
    let zero_only : n ≡ 0 = omega arith in rw zero_only refl
digits_from-decimal_from (suc k) n acc h fits = elim (Bool-cases (ltb n 10)) [
  | inl e ↦
      let none_above : n / 10 ≡ 0 = ground (arith, e) in
      rw e (
        ap (λ v. digits_from v ((48 + n % 10) ∷ acc)) (sym none_above)
        ∙ digits_from-digit n acc fits)
  | inr e ↦ rw e (
      digits_from-decimal_from k (n / 10) ((48 + n % 10) ∷ acc) (omega (arith, h))
        (omega (arith, fits))
      ∙ digits_from-digit n acc fits)
]

abbrev pub IsDigit : ℕ → Type 0
IsDigit b = (48 ≤ b) × (b ≤ 57)

pub decimal_from-IsDigit :
    (k n : ℕ) (acc : Bytes) → All IsDigit acc → All IsDigit (decimal_from k n acc)
unfolding decimal_from
decimal_from-IsDigit zero n acc h = h
decimal_from-IsDigit (suc k) n acc h =
    let digits = (48 + n % 10) ∷ acc in
    let all_digits : All IsDigit digits = ((omega arith, omega arith), h) in
    elim (Bool-cases (ltb n 10)) [
      | inl e ↦ rw e all_digits
      | inr e ↦ rw e (decimal_from-IsDigit k (n / 10) digits all_digits)
    ]

decimal_from-is_empty :
    (k n : ℕ) (acc : Bytes) → is_empty acc ≡ false → is_empty (decimal_from k n acc) ≡ false
unfolding decimal_from
decimal_from-is_empty zero n acc h = h
decimal_from-is_empty (suc k) n acc h = elim (Bool-cases (ltb n 10)) [
  | inl e ↦ rw e refl
  | inr e ↦ rw e (decimal_from-is_empty k (n / 10) ((48 + n % 10) ∷ acc) refl)
]

-- A number has a digit.
pub decimal-is_empty : (n : ℕ) → is_empty (decimal n) ≡ false
unfolding decimal
decimal-is_empty n = first_digit 19 n
  where
    first_digit : (k n : ℕ) → is_empty (decimal_from (suc k) n []) ≡ false
    first_digit k n = elim (Bool-cases (ltb n 10)) [
      | inl e ↦ rw e refl
      | inr e ↦ rw e (decimal_from-is_empty k (n / 10) ((48 + n % 10) ∷ []) refl)
    ]

parse_u32-digits : (s : Bytes) → All IsDigit s → is_empty s ≡ false → parse_u32 s ≡ digits_from 0 s
unfolding parse_u32 unsigned_digits
parse_u32-digits [] h e = ground (arith, e)
parse_u32-digits (b ∷ s) (h, hs) e =
    let no_plus : nat_beq b b'+' ≡ false = ground (arith, h) in rw no_plus refl

pub parse_u32-decimal : (n : ℕ) → n ≤ u32_max → parse_u32 (decimal n) ≡ some n
unfolding decimal digits_from
parse_u32-decimal n h =
    parse_u32-digits (decimal n) (decimal_from-IsDigit 20 n [] tt) (decimal-is_empty n)
    ∙ digits_from-decimal_from 20 n [] (omega arith) h

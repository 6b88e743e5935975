-- ===== src/Paths/Utf8.antt =====
-- What `utf8_head` takes from a byte string: a prefix, whole characters with no ASCII byte inside.
use ncda.Base.{
  ℕ, zero, suc, ◌≤◌, ◌≡◌, refl, [], ◌∷◌, ◌++◌, Bytes, length, All, ltb, Bool-cases, Option-cases,
  inl, inr, ◌⊎◌, arith, some,
}
use ncda.Paths.{utf8_lead, utf8_rest, utf8_head, in_range}
use mathlib.Core.List.{append_assoc}

-- Bytes beyond ASCII.
abbrev pub IsHigh : ℕ → Type 0
IsHigh b = 0x80 ≤ b

pub All-append : (P : ℕ → Type 0) (xs ys : Bytes) → All P xs → All P ys → All P (xs ++ ys)
All-append P [] ys h k = k
All-append P (x ∷ xs) ys h k = (h.0, All-append P xs ys h.1 k)

rest_append :
    (n lo hi : ℕ) (taken bytes : Bytes)
    → (utf8_rest n lo hi taken bytes).1 ++ (utf8_rest n lo hi taken bytes).2 ≡ taken ++ bytes
unfolding utf8_rest
rest_append zero lo hi taken bytes = refl
rest_append (suc n) lo hi taken [] = refl
rest_append (suc n) lo hi taken (b ∷ bytes) =
    ground
      (arith, rest_append n 0x80 0xBF (taken ++ b ∷ []) bytes, append_assoc taken (b ∷ []) bytes)

rest-IsHigh :
    (n lo hi : ℕ) (taken bytes : Bytes)
    → 0x80 ≤ lo
    → All IsHigh taken
    → All IsHigh (utf8_rest n lo hi taken bytes).1
unfolding utf8_rest
rest-IsHigh zero lo hi taken bytes l h = h
rest-IsHigh (suc n) lo hi taken [] l h = h
rest-IsHigh (suc n) lo hi taken (b ∷ bytes) l h = elim (Bool-cases (in_range lo hi b)) [
  | inl e ↦ rw e (
      rest-IsHigh n 0x80 0xBF (taken ++ b ∷ []) bytes (omega arith)
        (All-append IsHigh taken (b ∷ []) h (ground arith, tt)))
  | inr e ↦ rw e h
]

lead_high : (b n lo hi : ℕ) → utf8_lead b ≡ some (n, lo, hi) → (0x80 ≤ lo) × (0x80 ≤ b)
unfolding utf8_lead
lead_high b n lo hi e = ground arith

-- Nothing is lost.
pub head_append :
    (b : ℕ) (bytes : Bytes) → (utf8_head b bytes).1 ++ (utf8_head b bytes).2 ≡ b ∷ bytes
unfolding utf8_head
head_append b bytes = elim (Bool-cases (ltb b 0x80)) [
  | inl small ↦ rw small
  | inr big ↦ elim (Option-cases (utf8_lead b)) [
    | inl e ↦ rw (big, e, utf8_head)
    | inr ((n, lo, hi), e) ↦ rw (big, e, utf8_head) (rest_append n lo hi (b ∷ []) bytes)
  ]
]

-- What is taken begins with the byte, so what is left is shorter.
rest_shorter :
    (n lo hi : ℕ) (taken bytes : Bytes) → length (utf8_rest n lo hi taken bytes).2 ≤ length bytes
unfolding utf8_rest
rest_shorter zero lo hi taken bytes = omega arith
rest_shorter (suc n) lo hi taken [] = omega arith
rest_shorter (suc n) lo hi taken (b ∷ bytes) =
    ground (arith, rest_shorter n 0x80 0xBF (taken ++ b ∷ []) bytes)

pub head_shorter : (b : ℕ) (bytes : Bytes) → length (utf8_head b bytes).2 ≤ length bytes
unfolding utf8_head
head_shorter b bytes = elim (Bool-cases (ltb b 0x80)) [
  | inl small ↦ rw small (omega arith)
  | inr big ↦ elim (Option-cases (utf8_lead b)) [
    | inl e ↦ rw (big, e, utf8_head) (omega arith)
    | inr ((n, lo, hi), e) ↦ rw (big, e, utf8_head) (rest_shorter n lo hi (b ∷ []) bytes)
  ]
]

-- What is taken is one ASCII byte, or bytes beyond ASCII.
pub head-IsHigh :
    (b : ℕ) (bytes : Bytes) → ((utf8_head b bytes).1 ≡ b ∷ []) ⊎ All IsHigh (utf8_head b bytes).1
unfolding utf8_head
head-IsHigh b bytes = elim (Bool-cases (ltb b 0x80)) [
  | inl small ↦ rw small (inl refl)
  | inr big ↦ elim (Option-cases (utf8_lead b)) [
    | inl e ↦ rw (big, e, utf8_head) (inl refl)
    | inr ((n, lo, hi), e) ↦
        let (l, h) = lead_high b n lo hi e in
        rw (big, e, utf8_head) (inr (rest-IsHigh n lo hi (b ∷ []) bytes l (h, tt)))
  ]
]

-- ===== src/Paths/Display.antt =====
-- `display_path` can be read back, so it is injective; what it prints has no control byte.
use ncda.Base.{
  ℕ, zero, suc, ◌+◌, ◌-◌, ◌*◌, ◌/◌, ◌%◌, ◌≤◌, ◌<◌, ◌≡◌, ◌≢◌, refl, sym, ap, subst, ◌∙◌, Bool, true,
  false, [], ◌∷◌, ◌++◌, Bytes, length, All, ltb, nat_beq, list_beq_iff, if◌then◌else◌, ◌==◌,
  list_eq, nat_eq, ascii, Bool-cases, inl, inr, ◌⊎◌, arith,
}
use ncda.Paths.{
  utf8_head, hex_digit, hex_bytes, is_control, display_char, display_from, display_path,
}
use ncda.Paths.Utf8.{IsHigh, head_append, head_shorter, head-IsHigh}

abbrev pub IsByte : ℕ → Type 0
IsByte b = b < 256

-- A reader of what `display_path` prints.
data Reading : Type 0 where
  plain slash high : Reading
  low : ℕ → Reading

hex_value : ℕ → ℕ
hex_value c = if ltb c 58 then c - 48 else c - 55

read : Reading → Bytes → Bytes
read r [] = []
read plain (c ∷ s) = if nat_beq c b'\\' then read slash s else c ∷ read plain s
read slash (c ∷ s) = if nat_beq c b'\\' then c ∷ read plain s else read high s
read high (c ∷ s) = read (low (hex_value c)) s
read (low d) (c ∷ s) = (d * 16 + hex_value c) ∷ read plain s

hex_value-hex_digit :
    (b : ℕ) → b < 256 → hex_value (hex_digit (b / 16)) * 16 + hex_value (hex_digit (b % 16)) ≡ b
unfolding hex_value
hex_value-hex_digit b h = ground arith

read-hex_bytes :
    (bs s : Bytes) → All IsByte bs → read plain (hex_bytes bs ++ s) ≡ bs ++ read plain s
unfolding read
read-hex_bytes [] s h = refl
read-hex_bytes (b ∷ bs) s h = rw (hex_value-hex_digit b h.0, read-hex_bytes bs s h.1)

read_plain : (bs s : Bytes) → All (λ b. b ≢ b'\\') bs → read plain (bs ++ s) ≡ bs ++ read plain s
unfolding read
read_plain [] s h = refl
read_plain (b ∷ bs) s h = ground (arith, read_plain bs s h.1)

high-ne : (bs : Bytes) → All IsHigh bs → All (λ b. b ≢ b'\\') bs
high-ne [] h = tt
high-ne (b ∷ bs) h = (omega arith, high-ne bs h.1)

not_slash :
    (bs : Bytes)
    → ((b : ℕ) × (bs ≡ b ∷ [])) ⊎ All IsHigh bs
    → (bs == ascii "\\") ≡ false
    → All (λ b. b ≢ b'\\') bs
not_slash bs (inl (b, one)) e = rw one (λ h. ground (arith, list_beq_iff bs (ascii "\\")), tt)
not_slash bs (inr all_high) e = high-ne bs all_high

read-display_char :
    (bs s : Bytes)
    → All IsByte bs
    → ((b : ℕ) × (bs ≡ b ∷ [])) ⊎ All IsHigh bs
    → read plain (display_char bs ++ s) ≡ bs ++ read plain s
unfolding display_char
read-display_char bs s bytes whole = elim (Bool-cases (bs == ascii "\\")) [
  | inl e ↦ rw (e, (list_beq_iff bs (ascii "\\")).0 e) (unfold read in refl)
  | inr e ↦ elim (Bool-cases (is_control bs)) [
    | inl c ↦ rw (e, c) (read-hex_bytes bs s bytes)
    | inr c ↦ rw (e, c) (read_plain bs s (not_slash bs whole e))
  ]
]

read-display_round :
    (valid : Bool) (bs s : Bytes)
    → All IsByte bs
    → ((b : ℕ) × (bs ≡ b ∷ [])) ⊎ All IsHigh bs
    → read plain ((if valid then display_char bs else hex_bytes bs) ++ s) ≡ bs ++ read plain s
read-display_round true bs s h whole = read-display_char bs s h whole
read-display_round false bs s h whole = read-hex_bytes bs s h

one_or_IsHigh :
    (b : ℕ) (bytes : Bytes)
    → ((c : ℕ) × ((utf8_head b bytes).1 ≡ c ∷ [])) ⊎ All IsHigh (utf8_head b bytes).1
one_or_IsHigh b bytes = elim (head-IsHigh b bytes) [
  | inl e ↦ inl (b, e)
  | inr all_high ↦ inr all_high
]

All-split : (P : ℕ → Type 0) (xs ys : Bytes) → All P (xs ++ ys) → All P xs × All P ys
All-split P [] ys h = (tt, h)
All-split P (x ∷ xs) ys h = let (a, b) = All-split P xs ys h.1 in ((h.0, a), b)

read-display_from :
    (n : ℕ) (bytes : Bytes)
    → length bytes ≤ n
    → All IsByte bytes
    → read plain (display_from n bytes) ≡ bytes
unfolding display_from
read-display_from zero [] p h = unfold read in refl
read-display_from zero (b ∷ bytes) p h = absurd (omega arith)
read-display_from (suc n) [] p h = unfold read in refl
read-display_from (suc n) (b ∷ bytes) p h =
    let (valid, taken, rest) = utf8_head b bytes in
    let whole : taken ++ rest ≡ b ∷ bytes = head_append b bytes in
    let (fine, fine_rest) = All-split IsByte taken rest (subst (All IsByte) (sym whole) h) in
    let shorter : length rest ≤ length bytes = head_shorter b bytes in
    let later = read-display_from n rest (omega arith) fine_rest in
    read-display_round valid taken (display_from n rest) fine (one_or_IsHigh b bytes)
    ∙ ap (λ s. taken ++ s) later
    ∙ whole

-- Reading what `display_path` prints gives the bytes of the path again.
display_path-read : (bytes : Bytes) → All IsByte bytes → read plain (display_path bytes) ≡ bytes
unfolding display_path
display_path-read bytes h = read-display_from (length bytes) bytes (omega arith) h

-- Two paths that are printed alike are the same bytes: control characters, backslashes and bytes
-- that are no UTF-8 included.
pub display_path-injective :
    (a b : Bytes) → All IsByte a → All IsByte b → display_path a ≡ display_path b → a ≡ b
display_path-injective a b ha hb e =
    sym (display_path-read a ha) ∙ ap (read plain) e ∙ display_path-read b hb

-- ===== src/Filter/Parsing.antt =====
-- What `FilterQuery::parse` of ncda/src/tui/filter.rs accepts, and its errors.
use ncda.Base.{
  ℕ, zero, suc, ◌≤◌, ◌<◌, ◌≡◌, ◌≢◌, refl, sym, ap, false, none, List, [], ◌∷◌, ◌++◌, Bytes,
  is_empty, length, All, arith, nat_beq_iff, if◌then◌else◌, ascii, trim, decimal, u32_max,
  split_whitespace, words_from, strip_any, white_space, subst,
}
use mathlib.Core.List.{append-nil, append_assoc}
use ncda.Filter.{
  FilterTerm, pid_term, ok, err, parse_pid, parse_field, parse_term, parse_terms, push_term, parse,
}
use ncda.Filter.Decimal.{IsDigit, decimal_from-IsDigit, decimal-is_empty, parse_u32-decimal}

-- Visible ASCII, which no white space starts with.
abbrev IsVisible : ℕ → Type 0
IsVisible b = (33 ≤ b) × (b < 128)

abbrev StartsOther : ℕ → Bytes → Type 0
StartsOther b [] = ⊥
StartsOther b (p ∷ ps) = p ≢ b

strip_any-none :
    (b : ℕ) (s : Bytes) (ps : List Bytes) → All (StartsOther b) ps → strip_any ps (b ∷ s) ≡ none
strip_any-none b s [] h = refl
strip_any-none b s ([] ∷ ps) (h, hs) = absurd h
strip_any-none b s ((p ∷ q) ∷ ps) (h, hs) =
    ground (arith, h, nat_beq_iff p b, strip_any-none b s ps hs)

white_space-visible : (b : ℕ) → IsVisible b → All (StartsOther b) white_space
white_space-visible b h = ground (arith, h)

last_word :
    (word : Bytes)
    → is_empty (word ++ []) ≡ false
    → (if is_empty word then [] else word ∷ []) ≡ (word ++ []) ∷ []
last_word word e =
    let same = append-nil word in
    rw (subst (λ w. is_empty w ≡ false) same e) (ap (λ w. w ∷ []) (sym same))

-- A text without white space is one word.
words_from-visible :
    (n : ℕ) (word s : Bytes)
    → length s ≤ n
    → All IsVisible s
    → is_empty (word ++ s) ≡ false
    → words_from n word s ≡ (word ++ s) ∷ []
unfolding words_from
words_from-visible zero word [] h vs e = last_word word e
words_from-visible zero word (b ∷ s) h vs e = absurd (omega arith)
words_from-visible (suc n) word [] h vs e = last_word word e
words_from-visible (suc n) word (b ∷ s) h (v, vs) e =
    rw (words_from, strip_any-none b s white_space (white_space-visible b v))
      (subst (λ w. words_from n (word ++ b ∷ []) s ≡ w ∷ []) (append_assoc word (b ∷ []) s)
        (words_from-visible n (word ++ b ∷ []) s (omega (arith, h)) vs
          (subst (λ w. is_empty w ≡ false) (sym (append_assoc word (b ∷ []) s)) e)))

split_whitespace-visible :
    (s : Bytes) → All IsVisible s → is_empty s ≡ false → split_whitespace s ≡ s ∷ []
unfolding split_whitespace
split_whitespace-visible s vs e = words_from-visible (length s) [] s (omega arith) vs e

digits-IsVisible : (s : Bytes) → All IsDigit s → All IsVisible s
digits-IsVisible [] h = tt
digits-IsVisible (b ∷ s) (h, hs) = ((omega arith, omega arith), digits-IsVisible s hs)

abbrev pub pid_query : ℕ → Bytes
pid_query n = ascii "pid:" ++ decimal n

pid_query-IsVisible : (n : ℕ) → All IsVisible (pid_query n)
unfolding decimal
pid_query-IsVisible n = (
  (omega arith, omega arith),
  (
    (omega arith, omega arith),
    (
      (omega arith, omega arith),
      ((omega arith, omega arith), digits-IsVisible (decimal n) (decimal_from-IsDigit 20 n [] tt)),
    ),
  ),
)

parse_term-pid_query :
    (to_lowercase : Bytes → Bytes) (n : ℕ)
    → n ≤ u32_max
    → parse_term to_lowercase (pid_query n) ≡ ok (pid_term n)
unfolding parse_term parse_field parse_pid
parse_term-pid_query to_lowercase n h =
    rw (parse_term, decimal-is_empty n, parse_pid, parse_u32-decimal n h) refl

-- The text `pid:N` of any `u32` N, in decimal, parses as the query for process N.
pub parse-pid_query :
    (to_lowercase : Bytes → Bytes) (n : ℕ)
    → n ≤ u32_max
    → parse to_lowercase (pid_query n)
      ≡ ok (record { raw = trim (pid_query n); terms = pid_term n ∷ [] })
unfolding parse parse_terms push_term
parse-pid_query to_lowercase n h =
    rw
      (
        parse,
        split_whitespace-visible (pid_query n) (pid_query-IsVisible n) refl,
        parse_terms,
        parse_term-pid_query to_lowercase n h,
      )
      refl

abbrev pub IsOk : (Bytes → Bytes) → Bytes → Type 0
IsOk to_lowercase token = (term : FilterTerm) × (parse_term to_lowercase token ≡ ok term)

-- A message comes from the first word that is not a well-formed term, whatever follows it.
parse_terms-first_error :
    (to_lowercase : Bytes → Bytes) (good : List Bytes) (bad message : Bytes) (rest : List Bytes)
    → All (IsOk to_lowercase) good
    → parse_term to_lowercase bad ≡ err message
    → parse_terms to_lowercase (good ++ bad ∷ rest) ≡ err message
unfolding parse_terms push_term
parse_terms-first_error to_lowercase [] bad message rest h e = rw (parse_terms, e) refl
parse_terms-first_error to_lowercase (token ∷ good) bad message rest ((term, is_ok), hs) e =
    rw (parse_terms, is_ok, parse_terms-first_error to_lowercase good bad message rest hs e) refl

pub parse-first_error :
    (to_lowercase : Bytes → Bytes) (input : Bytes) (good : List Bytes) (bad message : Bytes)
    (rest : List Bytes)
    → split_whitespace input ≡ good ++ bad ∷ rest
    → All (IsOk to_lowercase) good
    → parse_term to_lowercase bad ≡ err message
    → parse to_lowercase input ≡ err message
unfolding parse
parse-first_error to_lowercase input good bad message rest words h e =
    rw (parse, words, parse_terms-first_error to_lowercase good bad message rest h e) refl

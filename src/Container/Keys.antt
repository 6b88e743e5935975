-- ===== src/Container/Keys.antt =====
-- The search of ncda/src/container.rs for a key of a JSON object: in a text whose strings hold no quotes it
-- finds the first string that is the key.
use ncda.Base.{
  ◌≡◌, refl, ap, Bool, true, false, not, ◌&&◌, none, some, List, [], ◌∷◌, ◌++◌, Bytes, all,
  find_after, strip_prefix, split_once, nat_beq, nat_eq, list_eq, list_beq, arith,
}
use mathlib.Core.List.{append_assoc}
use ncda.Container.Json.{key_pattern}

abbrev pub has_no_quote : Bytes → Bool
has_no_quote s = all (λ b. not (nat_beq b b'"')) s

-- Pieces of text, each before a quote.
abbrev pub pieces : List Bytes → Bytes → Bytes
pieces [] text = text
pieces (s ∷ ss) text = s ++ b'"' ∷ pieces ss text

pub find_after-skip :
    (k s text : Bytes)
    → has_no_quote s ≡ true
    → find_after (key_pattern k) (s ++ text) ≡ find_after (key_pattern k) text
find_after-skip k [] text h = refl
find_after-skip k (b ∷ s) text h = ground (arith, find_after-skip k s text)

strip_prefix-hit : (k text : Bytes) → strip_prefix k (k ++ text) ≡ some text
strip_prefix-hit [] text = refl
strip_prefix-hit (b ∷ k) text = ground (arith, strip_prefix-hit k text)

strip_prefix-miss :
    (k s text : Bytes)
    → has_no_quote k ≡ true
    → has_no_quote s ≡ true
    → list_beq k s ≡ false
    → strip_prefix (k ++ b'"' ∷ []) (s ++ b'"' ∷ text) ≡ none
strip_prefix-miss [] [] text hk hs e = cc
strip_prefix-miss [] (b ∷ s) text hk hs e = ground arith
strip_prefix-miss (c ∷ k) [] text hk hs e = ground arith
strip_prefix-miss (c ∷ k) (b ∷ s) text hk hs e = ground (arith, strip_prefix-miss k s text)

pub find_after-hit :
    (k text : Bytes) → find_after (key_pattern k) (b'"' ∷ k ++ b'"' ∷ text) ≡ some text
find_after-hit k text =
    let e = ap (strip_prefix (k ++ b'"' ∷ [])) (append_assoc k (b'"' ∷ []) text) in
    ground (arith, e, strip_prefix-hit (k ++ b'"' ∷ []) text)

-- Every piece is without quotes, and is not the key.
abbrev pub avoids : Bytes → List Bytes → Bool
avoids k ss = all (λ s. has_no_quote s && not (list_beq k s)) ss

pub find_after-pieces :
    (k : Bytes) (ss : List Bytes) (text : Bytes)
    → has_no_quote k ≡ true
    → avoids k ss ≡ true
    → find_after (key_pattern k) (b'"' ∷ pieces ss text) ≡ find_after (key_pattern k) (b'"' ∷ text)
find_after-pieces k [] text hk h = refl
find_after-pieces k (s ∷ ss) text hk h = ground (
  arith,
  strip_prefix-miss k s (pieces ss text),
  find_after-skip k s (b'"' ∷ pieces ss text),
  find_after-pieces k ss text,
)

pub split_once-quote :
    (s text : Bytes) → has_no_quote s ≡ true → split_once b'"' (s ++ b'"' ∷ text) ≡ some (s, text)
split_once-quote [] text h = refl
split_once-quote (b ∷ s) text h = ground (arith, split_once-quote s text)

-- ===== src/Base/Strings.antt =====
-- More operations of `str` on lists of bytes: those that the filter language uses.
use Prim.Native.Nat.{ℕ, zero, suc, ◌+◌, ◌-◌, ◌*◌, ◌^◌}
use mathlib.Core.List.{List, [], ◌∷◌, ◌++◌}
use mathlib.Core.Bool.{Bool, ◌&&◌, ◌||◌}
use mathlib.Core.Option.{Option, none, some}
use ncda.Base.Tests.{if◌then◌else◌, nat_beq, leb}
use ncda.Base.Lists.{Bytes, length, is_empty}
use ncda.Base.Text.{strip_prefix, starts_with, strip_any, white_space}

-- A byte more for a word, and the end of a word.
abbrev push_word : Bytes → List Bytes → List Bytes
push_word word words = if is_empty word then words else word ∷ words

-- At most as many rounds as there are bytes.
unfoldable pub words_from : ℕ → Bytes → Bytes → List Bytes
words_from zero word s = push_word word []
words_from (suc n) word [] = push_word word []
words_from (suc n) word (b ∷ s) = elim (strip_any white_space (b ∷ s)) [
  | some rest ↦ push_word word (words_from n [] rest)
  | none ↦ words_from n (word ++ b ∷ []) s
]

-- `split_whitespace`
unfoldable pub split_whitespace : Bytes → List Bytes
split_whitespace s = words_from (length s) [] s

-- `split_once` at a byte
abbrev pub before_byte : ℕ → Option (Bytes × Bytes) → Option (Bytes × Bytes)
before_byte b none = none
before_byte b (some (front, back)) = some (b ∷ front, back)

abbrev pub split_once : ℕ → Bytes → Option (Bytes × Bytes)
split_once sep [] = none
split_once sep (b ∷ s) =
    let rest = split_once sep s in if nat_beq b sep then some ([], s) else before_byte b rest

-- `contains`
abbrev pub contains : Bytes → Bytes → Bool
contains pattern [] = is_empty pattern
contains pattern (b ∷ s) = starts_with pattern (b ∷ s) || contains pattern s

-- What follows the first occurrence of a pattern: `find`, and a slice from its end.
abbrev pub find_after : Bytes → Bytes → Option Bytes
find_after pattern [] = strip_prefix pattern []
find_after pattern (b ∷ s) =
    let later = find_after pattern s in
    elim (strip_prefix pattern (b ∷ s)) [ some rest ↦ some rest | none ↦ later ]

-- `to_ascii_lowercase`
abbrev lower_byte : ℕ → ℕ
lower_byte b = if leb 65 b && leb b 90 then b + 32 else b

abbrev pub to_ascii_lowercase : Bytes → Bytes
to_ascii_lowercase [] = []
to_ascii_lowercase (b ∷ s) = lower_byte b ∷ to_ascii_lowercase s

-- `parse::<u32>()`: a plus may come first, digits follow, and the value fits.
abbrev pub u32_max : ℕ
u32_max = 2 ^ 32 - 1

unfoldable pub digits_from : ℕ → Bytes → Option ℕ
digits_from value [] = some value
digits_from value (b ∷ s) =
    let value' = value * 10 + (b - 48) in
    let rest = digits_from value' s in
    if leb 48 b && leb b 57 && leb value' u32_max then rest else none

unfoldable pub unsigned_digits : Bytes → Option ℕ
unsigned_digits [] = none
unsigned_digits (b ∷ s) = digits_from 0 (b ∷ s)

unfoldable pub parse_u32 : Bytes → Option ℕ
parse_u32 [] = none
parse_u32 (b ∷ s) = if nat_beq b b'+' then unsigned_digits s else unsigned_digits (b ∷ s)

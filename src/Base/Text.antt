-- ===== src/Base/Text.antt =====
-- The operations of `str` and of byte slices that the program uses, on lists of bytes.
use Prim.Native.Nat.{ℕ, zero, suc, ◌+◌, ◌/◌, ◌%◌}
use mathlib.Core.List.{List, [], ◌∷◌, ◌++◌, reverse}
use mathlib.Core.Bool.{Bool}
use mathlib.Core.Option.{Option, none, some}
use Prim.Native.String.{String}
use Prim.Native.Char.{code}
use ncda.Base.Tests.{if◌then◌else◌, nat_beq, ltb, is_some, unwrap_or}
use ncda.Base.Lists.{Bytes, length, is_empty, split_on}

-- The bytes of an ASCII literal.
abbrev pub ascii : String → Bytes
ascii String.[] = []
ascii (String.◌∷◌ c s) = code c ∷ ascii s

-- `strip_prefix`
abbrev pub strip_prefix : Bytes → Bytes → Option Bytes
strip_prefix [] s = some s
strip_prefix (p ∷ ps) [] = none
strip_prefix (p ∷ ps) (b ∷ s) = let rest = strip_prefix ps s in if nat_beq p b then rest else none

abbrev pub starts_with : Bytes → Bytes → Bool
starts_with p s = is_some (strip_prefix p s)

-- `strip_suffix`
abbrev pub map_reverse : Option Bytes → Option Bytes
map_reverse none = none
map_reverse (some s) = some (reverse s)

abbrev pub strip_suffix : Bytes → Bytes → Option Bytes
strip_suffix p s = map_reverse (strip_prefix (reverse p) (reverse s))

-- `trim_end_matches` of one byte
abbrev pub skip_byte : ℕ → Bytes → Bytes
skip_byte c [] = []
skip_byte c (b ∷ s) = let rest = skip_byte c s in if nat_beq b c then rest else b ∷ s

abbrev pub trim_end_matches : ℕ → Bytes → Bytes
trim_end_matches c s = reverse (skip_byte c (reverse s))

-- `join` of pieces by a separator
abbrev pub join : ℕ → List Bytes → Bytes
join sep [] = []
join sep (p ∷ []) = p
join sep (p ∷ p' ∷ ps) = p ++ sep ∷ join sep (p' ∷ ps)

-- The decimal digits of a number of at most 20 digits, as `u32` and `u64` are.
unfoldable pub decimal_from : ℕ → ℕ → Bytes → Bytes
decimal_from zero n acc = acc
decimal_from (suc k) n acc =
    let digits = (48 + n % 10) ∷ acc in
    let rest = decimal_from k (n / 10) digits in if ltb n 10 then digits else rest

unfoldable pub decimal : ℕ → Bytes
unfolding decimal_from
decimal n = decimal_from 20 n []

-- `ends_with`, and the rest after the first occurrence of a byte
abbrev pub ends_with : Bytes → Bytes → Bool
ends_with p s = is_some (strip_suffix p s)

abbrev pub after_byte : ℕ → Bytes → Option Bytes
after_byte c [] = none
after_byte c (b ∷ s) = let rest = after_byte c s in if nat_beq b c then some s else rest

-- The UTF-8 encodings of the characters that are Unicode white space.
abbrev pub white_space : List Bytes
white_space =
    (9 ∷ [])
    ∷ (10 ∷ [])
    ∷ (11 ∷ [])
    ∷ (12 ∷ [])
    ∷ (13 ∷ [])
    ∷ (32 ∷ [])
    ∷ (0xC2 ∷ 0x85 ∷ [])
    ∷ (0xC2 ∷ 0xA0 ∷ [])
    ∷ (0xE1 ∷ 0x9A ∷ 0x80 ∷ [])
    ∷ (0xE2 ∷ 0x80 ∷ 0x80 ∷ [])
    ∷ (0xE2 ∷ 0x80 ∷ 0x81 ∷ [])
    ∷ (0xE2 ∷ 0x80 ∷ 0x82 ∷ [])
    ∷ (0xE2 ∷ 0x80 ∷ 0x83 ∷ [])
    ∷ (0xE2 ∷ 0x80 ∷ 0x84 ∷ [])
    ∷ (0xE2 ∷ 0x80 ∷ 0x85 ∷ [])
    ∷ (0xE2 ∷ 0x80 ∷ 0x86 ∷ [])
    ∷ (0xE2 ∷ 0x80 ∷ 0x87 ∷ [])
    ∷ (0xE2 ∷ 0x80 ∷ 0x88 ∷ [])
    ∷ (0xE2 ∷ 0x80 ∷ 0x89 ∷ [])
    ∷ (0xE2 ∷ 0x80 ∷ 0x8A ∷ [])
    ∷ (0xE2 ∷ 0x80 ∷ 0xA8 ∷ [])
    ∷ (0xE2 ∷ 0x80 ∷ 0xA9 ∷ [])
    ∷ (0xE2 ∷ 0x80 ∷ 0xAF ∷ [])
    ∷ (0xE2 ∷ 0x81 ∷ 0x9F ∷ [])
    ∷ (0xE3 ∷ 0x80 ∷ 0x80 ∷ [])
    ∷ []

abbrev pub strip_any : List Bytes → Bytes → Option Bytes
strip_any [] s = none
strip_any (p ∷ ps) s = elim (strip_prefix p s) [ some rest ↦ some rest | none ↦ strip_any ps s ]

-- At most as many characters as there are bytes.
trim_from : ℕ → List Bytes → Bytes → Bytes
trim_from zero spaces s = s
trim_from (suc n) spaces s = elim (strip_any spaces s) [
  | none ↦ s
  | some rest ↦ trim_from n spaces rest
]

abbrev reversed : List Bytes → List Bytes
reversed [] = []
reversed (p ∷ ps) = reverse p ∷ reversed ps

-- `str::trim_start`
unfoldable pub trim_start : Bytes → Bytes
unfolding trim_from
trim_start s = trim_from (length s) white_space s

-- `str::trim`
unfoldable pub trim : Bytes → Bytes
unfolding trim_from
trim s =
    let front = trim_from (length s) white_space s in
    reverse (trim_from (length front) (reversed white_space) (reverse front))

-- `str::lines`: the last line may lack its end, and a carriage return goes with it.
abbrev chomp : Bytes → Bytes
chomp line = unwrap_or (strip_suffix (13 ∷ []) line) line

abbrev drop_empty_last : List Bytes → List Bytes
drop_empty_last [] = []
drop_empty_last (p ∷ []) = if is_empty p then [] else p ∷ []
drop_empty_last (p ∷ p' ∷ ps) = p ∷ drop_empty_last (p' ∷ ps)

abbrev chomp_all : List Bytes → List Bytes
chomp_all [] = []
chomp_all (p ∷ ps) = chomp p ∷ chomp_all ps

unfoldable pub lines : Bytes → List Bytes
lines text = chomp_all (drop_empty_last (split_on 10 text))

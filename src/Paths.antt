-- ===== src/Paths.antt =====
-- The pathname functions at the end of ncda/src/bpf.rs: lexical normalisation, the pseudo paths of
-- procfs, and the injective rendering of arbitrary bytes.
mod Utf8
mod Display
mod Normal
mod Examples
use ncda.Base.{
  ℕ, zero, suc, ◌+◌, ◌-◌, ◌*◌, ◌/◌, ◌%◌, Bool, true, false, ◌&&◌, ◌||◌, Option, none, some, List,
  [], ◌∷◌, ◌++◌, Bytes, length, is_empty, any, split_on, join, ascii, strip_prefix, strip_suffix,
  starts_with, unwrap_or, decimal, ltb, leb, nat_beq, if◌then◌else◌, ◌==◌, list_eq, nat_eq,
}

-- Lexical normalisation.
abbrev pub drop_last : List Bytes → List Bytes
drop_last [] = []
drop_last (c ∷ []) = []
drop_last (c ∷ c' ∷ cs) = c ∷ drop_last (c' ∷ cs)

unfoldable pub push_component : List Bytes → Bytes → List Bytes
push_component stack c =
    if is_empty c || c == ascii "."
    then stack
    else if c == ascii ".."
    then drop_last stack
    else stack ++ c ∷ []

unfoldable pub fold_components : List Bytes → List Bytes → List Bytes
fold_components stack [] = stack
fold_components stack (c ∷ cs) = fold_components (push_component stack c) cs

unfoldable pub normalize_relative_path : Bytes → Bytes
normalize_relative_path path = join b'/' (fold_components [] (split_on b'/' path))

unfoldable pub normalize_absolute_path : Bytes → Bytes
normalize_absolute_path path =
    let normalized = normalize_relative_path path in
    if is_empty normalized then ascii "/" else b'/' ∷ normalized

-- `std::str::from_utf8`: how many continuation bytes a lead byte takes, and the range of the first.
abbrev in_range : ℕ → ℕ → ℕ → Bool
in_range lo hi b = leb lo b && leb b hi

unfoldable pub utf8_lead : ℕ → Option (ℕ × ℕ × ℕ)
utf8_lead b =
    if in_range 0xC2 0xDF b
    then some (1, 0x80, 0xBF)
    else if nat_beq b 0xE0
    then some (2, 0xA0, 0xBF)
    else if nat_beq b 0xED
    then some (2, 0x80, 0x9F)
    else if in_range 0xE1 0xEF b
    then some (2, 0x80, 0xBF)
    else if nat_beq b 0xF0
    then some (3, 0x90, 0xBF)
    else if in_range 0xF1 0xF3 b
    then some (3, 0x80, 0xBF)
    else if nat_beq b 0xF4
    then some (3, 0x80, 0x8F)
    else none

-- Whether a character is whole, the bytes that it takes (or that are invalid), and those after.
unfoldable pub utf8_rest : ℕ → ℕ → ℕ → Bytes → Bytes → Bool × Bytes × Bytes
utf8_rest zero lo hi taken bytes = (true, taken, bytes)
utf8_rest (suc n) lo hi taken [] = (false, taken, [])
utf8_rest (suc n) lo hi taken (b ∷ bytes) =
    let more = utf8_rest n 0x80 0xBF (taken ++ b ∷ []) bytes in
    if in_range lo hi b then more else (false, taken, b ∷ bytes)

unfoldable pub utf8_head : ℕ → Bytes → Bool × Bytes × Bytes
utf8_head b bytes = if ltb b 0x80 then (true, b ∷ [], bytes) else elim (utf8_lead b) [
  | none ↦ (false, b ∷ [], bytes)
  | some (n, lo, hi) ↦ utf8_rest n lo hi (b ∷ []) bytes
]

-- `format!("\\x{byte:02X}")`
abbrev pub hex_digit : ℕ → ℕ
hex_digit d = if ltb d 10 then 48 + d else 55 + d

abbrev pub hex_byte : ℕ → Bytes
hex_byte b = b'\\' ∷ b'x' ∷ hex_digit (b / 16) ∷ hex_digit (b % 16) ∷ []

abbrev pub hex_bytes : Bytes → Bytes
hex_bytes [] = []
hex_bytes (b ∷ bs) = hex_byte b ++ hex_bytes bs

-- `char::is_control`, on the UTF-8 bytes of a character.
abbrev pub is_control : Bytes → Bool
is_control (b ∷ []) = ltb b 0x20 || nat_beq b 0x7F
is_control (b ∷ c ∷ []) = nat_beq b 0xC2 && in_range 0x80 0x9F c
is_control _ = false

-- One character of `push_display_text`.
unfoldable pub display_char : Bytes → Bytes
display_char bytes =
    if bytes == ascii "\\"
    then ascii "\\\\"
    else if is_control bytes
    then hex_bytes bytes
    else bytes

-- A round of `display_path`, a character or a run of invalid bytes at a time; `n` rounds at most.
unfoldable pub display_from : ℕ → Bytes → Bytes
display_from zero bytes = []
display_from (suc n) [] = []
display_from (suc n) (b ∷ bytes) =
    let (valid, taken, rest) = utf8_head b bytes in
    (if valid then display_char taken else hex_bytes taken) ++ display_from n rest

unfoldable pub display_path : Bytes → Bytes
display_path bytes = display_from (length bytes) bytes

pub data PseudoPath : Type 0 where
  ordinary ignore : PseudoPath
  memory : Bytes → PseudoPath

unfoldable pub trim_deleted_suffix : Bytes → Bytes
trim_deleted_suffix path = unwrap_or (strip_suffix (ascii " (deleted)") path) path

-- `replace('/', "∕")`: a division slash is three bytes.
abbrev replace_slash : Bytes → Bytes
replace_slash [] = []
replace_slash (b ∷ bs) =
    if nat_beq b b'/' then 0xE2 ∷ 0x88 ∷ 0x95 ∷ replace_slash bs else b ∷ replace_slash bs

unfoldable pub classify_pseudo_path : Bytes → PseudoPath
classify_pseudo_path raw =
    let path = trim_deleted_suffix raw in
    let target = unwrap_or (strip_prefix (ascii "/") path) path in
    if starts_with (ascii "socket:") target
      || starts_with (ascii "pipe:") target
      || starts_with (ascii "anon_inode:") target
    then ignore
    else elim (strip_prefix (ascii "memfd:") target) [
      | none ↦ ordinary
      | some name ↦ memory (ascii "/[memory]/memfd:" ++ replace_slash (display_path name))
    ]

-- `/[unresolved]/pid-{pid}/fd-{fd}`
unfoldable pub unresolved_fd : ℕ → ℕ → Bytes
unresolved_fd pid fd = ascii "/[unresolved]/pid-" ++ decimal pid ++ ascii "/fd-" ++ decimal fd

unfoldable pub unresolved_path : ℕ → ℕ → Bytes → Bytes
unresolved_path pid fd raw_path =
    let raw = display_path (normalize_relative_path raw_path) in
    if is_empty raw then unresolved_fd pid fd else unresolved_fd pid fd ++ b'/' ∷ raw

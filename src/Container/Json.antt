-- ===== src/Container/Json.antt =====
-- The JSON scanners of ncda/src/container.rs. They look for bytes, and know nothing of JSON's escapes.
use ncda.Base.{
  ℕ, zero, suc, Option, none, some, List, [], ◌∷◌, ◌++◌, Bytes, ascii, find_after, trim_start,
  strip_prefix, split_once, nat_beq, if◌then◌else◌, ℤ, pos, negsuc, int_is_zero, ◌&&◌,
}

infixl 5 ◌>>=◌
abbrev pub ◌>>=◌ : {A B : Type 0} → Option A → (A → Option B) → Option B
none >>= f = none
some a >>= f = f a

-- `format!("\"{}\"", key)`
abbrev pub key_pattern : Bytes → Bytes
key_pattern key = b'"' ∷ key ++ b'"' ∷ []

abbrev pub first_part : Option (Bytes × Bytes) → Option Bytes
first_part none = none
first_part (some (front, back)) = some front

-- The string after a key.
unfoldable pub string_value : Bytes → Option Bytes
unfolding trim_start
string_value rest = do
  rest ← strip_prefix (ascii ":") (trim_start rest)
  rest ← strip_prefix (b'"' ∷ []) (trim_start rest)
  first_part (split_once b'"' rest)

unfoldable pub extract_json_string : Bytes → Bytes → Option Bytes
unfolding string_value
extract_json_string json key = find_after (key_pattern key) json >>= string_value

-- `i32`; a text of less than 2 ^ 31 bytes does not overflow it.
abbrev pub increment : ℤ → ℤ
increment (pos n) = pos (suc n)
increment (negsuc zero) = pos 0
increment (negsuc (suc n)) = negsuc n

abbrev pub decrement : ℤ → ℤ
decrement (pos zero) = negsuc 0
decrement (pos (suc n)) = pos n
decrement (negsuc n) = negsuc (suc n)

-- The bytes from the start of an object, if one is open.
abbrev pub push_byte : ℕ → Option Bytes → Option Bytes
push_byte b none = none
push_byte b (some object) = some (object ++ b ∷ [])

abbrev pub push_object : Option Bytes → List Bytes → List Bytes
push_object none objects = objects
push_object (some object) objects = object ∷ objects

-- The loop of `iter_json_array_objects`.
unfoldable pub scan_objects : ℤ → Option Bytes → Bytes → List Bytes
scan_objects depth object [] = []
scan_objects depth object (b ∷ s) =
    let begins = if int_is_zero depth then some [] else object in
    let opened = scan_objects (increment depth) (push_byte b begins) s in
    let ended = push_object (push_byte b object) (scan_objects (decrement depth) none s) in
    let closed = scan_objects (decrement depth) (push_byte b object) s in
    let kept = scan_objects depth (push_byte b object) s in
    if nat_beq b b'{'
    then opened
    else if nat_beq b b'}'
    then (if int_is_zero (decrement depth) then ended else closed)
    else if nat_beq b b']' && int_is_zero depth
    then []
    else kept

unfoldable pub array_field : Bytes → Bytes → Option Bytes
unfolding trim_start
array_field json array_key = do
  rest ← find_after (key_pattern array_key) json
  rest ← strip_prefix (ascii ":") (trim_start rest)
  strip_prefix (ascii "[") (trim_start rest)

abbrev pub objects_of : Option Bytes → List Bytes
objects_of none = []
objects_of (some rest) = scan_objects (pos 0) none rest

unfoldable pub iter_json_array_objects : Bytes → Bytes → List Bytes
unfolding scan_objects array_field
iter_json_array_objects json array_key = objects_of (array_field json array_key)

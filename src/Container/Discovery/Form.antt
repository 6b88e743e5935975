-- ===== src/Container/Discovery/Form.antt =====
-- Lists of containers in the form of `crictl ps -o json`, and how the scan for objects in
-- ncda/src/container.rs divides them.
use ncda.Base.{
  ℕ, suc, ◌&&◌, ◌≡◌, refl, sym, ap, ◌∙◌, Bool, true, false, not, ◌||◌, none, some, List, [], ◌∷◌,
  ◌++◌, Bytes, all, ascii, length, is_empty, nat_beq, nat_eq, list_eq, list_beq, list_beq_iff,
  arith, pos, map,
}
use mathlib.Core.List.{append_assoc, append-nil}
use ncda.Container.{is_hex64, is_hex_digit}
use ncda.Container.Json.{key_pattern, scan_objects}
use ncda.Container.Keys.{has_no_quote, pieces}

abbrev pub has_no_brace : Bytes → Bool
has_no_brace s = all (λ b. not (nat_beq b b'{' || nat_beq b b'}')) s

-- Text whose braces nest: bytes that are no braces, and parts in braces.
pub data Fields : Type 0 where
  done : Fields
  plain : Bytes → Fields → Fields
  braces : Fields → Fields → Fields

abbrev pub print_fields : Fields → Bytes
print_fields done = []
print_fields (plain s rest) = s ++ print_fields rest
print_fields (braces inner rest) = b'{' ∷ print_fields inner ++ b'}' ∷ print_fields rest

abbrev pub has_plain_text : Fields → Bool
has_plain_text done = true
has_plain_text (plain s rest) = has_no_brace s && has_plain_text rest
has_plain_text (braces inner rest) = has_plain_text inner && has_plain_text rest

-- A container, with what stands after its name in `metadata` and after `metadata`.
pub record Entry : Type 0 where
  pub id : Bytes
  pub sandbox : Bytes
  pub name : Bytes
  pub more_metadata : Fields
  pub more : Fields

-- What stands after the name.
abbrev pub after_name : Entry → Bytes
after_name e = print_fields e.more_metadata ++ b'}' ∷ print_fields e.more ++ b'}' ∷ []

-- The text up to a value, by the quotes.
abbrev up_to_id : List Bytes
up_to_id = ascii "{\n      " ∷ ascii "id" ∷ ascii ": " ∷ []

abbrev pub up_to_sandbox : List Bytes
up_to_sandbox = ascii ",\n      " ∷ ascii "podSandboxId" ∷ ascii ": " ∷ []

abbrev pub up_to_name : List Bytes
up_to_name =
    ascii ",\n      " ∷ ascii "metadata" ∷ ascii ": {\n        " ∷ ascii "name" ∷ ascii ": " ∷ []

-- The indented object `{ "id": "…", "podSandboxId": "…", "metadata": { "name": "…" … } … }`
abbrev pub print_entry : Entry → Bytes
print_entry e =
    pieces (up_to_id ++ e.id ∷ up_to_sandbox ++ e.sandbox ∷ up_to_name ++ e.name ∷ [])
      (after_name e)

-- The containers after the first one, and what stands after the list.
abbrev pub print_rest : Bytes → List Entry → Bytes
print_rest tail [] = ascii "\n  ]" ++ tail
print_rest tail (e ∷ es) = ascii ",\n    " ++ print_entry e ++ print_rest tail es

abbrev pub print_list : Bytes → List Entry → Bytes
print_list tail [] = b']' ∷ tail
print_list tail (e ∷ es) = ascii "\n    " ++ print_entry e ++ print_rest tail es

-- `{ "containers": [ … ] …`
abbrev pub print_output : Bytes → List Entry → Bytes
print_output tail es =
    ascii "{\n  " ++ key_pattern (ascii "containers") ++ ascii ": [" ++ print_list tail es

-- Identifiers of 64 digits, a name without quotes and braces, and braces that nest.
pub record IsPrintable (e : Entry) : Type 0 where
  pub id : is_hex64 e.id ≡ true
  pub sandbox : is_hex64 e.sandbox ≡ true
  pub named : is_empty e.name ≡ false
  pub unquoted : has_no_quote e.name ≡ true
  pub unbraced : has_no_brace e.name ≡ true
  pub metadata_nests : has_plain_text e.more_metadata ≡ true
  pub nests : has_plain_text e.more ≡ true

digits_plain :
    (s : Bytes) → all is_hex_digit s ≡ true → (has_no_quote s ≡ true) × (has_no_brace s ≡ true)
digits_plain [] h = (refl, refl)
digits_plain (b ∷ s) h = ground (arith, digits_plain s)

pub hex64-plain :
    (s : Bytes) → is_hex64 s ≡ true → (has_no_quote s ≡ true) × (has_no_brace s ≡ true)
unfolding is_hex64
hex64-plain s h = digits_plain s (ground arith)

pub hex64-no_key :
    (k s : Bytes) → is_hex64 s ≡ true → nat_beq (length k) 64 ≡ false → list_beq k s ≡ false
unfolding is_hex64
hex64-no_key k s h short = ground (arith, list_beq_iff k s, λ (e : k ≡ s). ap length e)

scan_plain :
    (n : ℕ) (object s text : Bytes)
    → has_no_brace s ≡ true
    → scan_objects (pos (suc n)) (some object) (s ++ text)
      ≡ scan_objects (pos (suc n)) (some (object ++ s)) text
unfolding scan_objects
scan_plain n object [] text h =
    ap (λ o. scan_objects (pos (suc n)) (some o) text) (sym (append-nil object))
scan_plain n object (b ∷ s) text h = ground (
  arith,
  scan_plain n (object ++ b ∷ []) s text,
  ap (λ o. scan_objects (pos (suc n)) (some o) text) (append_assoc object (b ∷ []) s),
)

scan_open :
    (n : ℕ) (object text : Bytes)
    → scan_objects (pos (suc n)) (some object) (b'{' ∷ text)
      ≡ scan_objects (pos (suc (suc n))) (some (object ++ b'{' ∷ [])) text
unfolding scan_objects
scan_open n object text = ground arith

scan_close :
    (n : ℕ) (object text : Bytes)
    → scan_objects (pos (suc (suc n))) (some object) (b'}' ∷ text)
      ≡ scan_objects (pos (suc n)) (some (object ++ b'}' ∷ [])) text
unfolding scan_objects
scan_close n object text = ground arith

scan_fields :
    (n : ℕ) (opened : Bytes) (f : Fields) (rest : Bytes)
    → has_plain_text f ≡ true
    → scan_objects (pos (suc n)) (some opened) (print_fields f ++ rest)
      ≡ scan_objects (pos (suc n)) (some (opened ++ print_fields f)) rest
unfolding scan_objects
scan_fields n opened done rest h =
    ap (λ o. scan_objects (pos (suc n)) (some o) rest) (sym (append-nil opened))
scan_fields n opened (plain s f) rest h =
    simp (append_assoc, scan_plain n opened s (print_fields f ++ rest) (ground (arith, h)))
      (scan_fields n (opened ++ s) f rest (ground (arith, h))
        ∙ ap (λ o. scan_objects (pos (suc n)) (some o) rest)
            (append_assoc opened s (print_fields f)))
scan_fields n opened (braces inner f) rest h =
    let before = opened ++ b'{' ∷ [] in
    let inside = before ++ print_fields inner in
    let closing = b'}' ∷ (print_fields f ++ rest) in
    ap (scan_objects (pos (suc n)) (some opened))
      (ap (λ t. b'{' ∷ t) (append_assoc (print_fields inner) (b'}' ∷ print_fields f) rest))
    ∙ scan_open n opened (print_fields inner ++ closing)
    ∙ scan_fields (suc n) before inner closing (ground (arith, h))
    ∙ scan_close n inside (print_fields f ++ rest)
    ∙ scan_fields n (inside ++ b'}' ∷ []) f rest (ground (arith, h))
    ∙ ap (λ o. scan_objects (pos (suc n)) (some o) rest) (simp (append_assoc))

scan_whole :
    (f : Fields) (rest : Bytes)
    → has_plain_text f ≡ true
    → scan_objects (pos 0) none (b'{' ∷ print_fields f ++ b'}' ∷ rest)
      ≡ (b'{' ∷ print_fields f ++ b'}' ∷ []) ∷ scan_objects (pos 0) none rest
unfolding scan_objects
scan_whole f rest h = scan_fields 0 (b'{' ∷ []) f (b'}' ∷ rest) h

has_no_brace-append :
    (s t : Bytes) → has_no_brace s ≡ true → has_no_brace t ≡ true → has_no_brace (s ++ t) ≡ true
has_no_brace-append [] t h k = k
has_no_brace-append (b ∷ s) t h k = ground (arith, has_no_brace-append s t)

-- The inside of a container's object.
abbrev entry_fields : Entry → Fields
entry_fields e = plain (pieces (ascii "\n      " ∷ ascii "id" ∷ ascii ": " ∷ []) []) (
    plain e.id (
      plain (b'"' ∷ pieces up_to_sandbox []) (
        plain e.sandbox (
          plain (b'"' ∷ pieces (ascii ",\n      " ∷ ascii "metadata" ∷ []) (ascii ": ")) (
            braces
              (plain (pieces (ascii "\n        " ∷ ascii "name" ∷ ascii ": " ∷ []) [])
                (plain e.name (plain (b'"' ∷ []) e.more_metadata)))
              e.more)))))

print_entry-fields :
    (e : Entry) (rest : Bytes)
    → print_entry e ++ rest ≡ b'{' ∷ print_fields (entry_fields e) ++ b'}' ∷ rest
print_entry-fields e rest = simp (append_assoc)

module _ (e : Entry) (p : IsPrintable e) where
  entry_fields-plain : has_plain_text (entry_fields e) ≡ true
  entry_fields-plain = ground (
    arith,
    hex64-plain e.id p.id,
    hex64-plain e.sandbox p.sandbox,
    p.unbraced,
    p.metadata_nests,
    p.nests,
  )

  scan_entry :
      (rest : Bytes)
      → scan_objects (pos 0) none (print_entry e ++ rest)
        ≡ print_entry e ∷ scan_objects (pos 0) none rest
  scan_entry rest =
      ap (scan_objects (pos 0) none) (print_entry-fields e rest)
      ∙ scan_whole (entry_fields e) rest entry_fields-plain
      ∙ ap (λ o. o ∷ scan_objects (pos 0) none rest)
          (sym (print_entry-fields e []) ∙ append-nil (print_entry e))

abbrev pub AllPrintable : List Entry → Type 0
AllPrintable [] = Unit {0}
AllPrintable (e ∷ es) = IsPrintable e × AllPrintable es

scan_rest :
    (tail : Bytes) (es : List Entry)
    → AllPrintable es
    → scan_objects (pos 0) none (print_rest tail es) ≡ map print_entry es
unfolding scan_objects
scan_rest tail [] p = refl
scan_rest tail (e ∷ es) (p, ps) =
    scan_entry e p (print_rest tail es) ∙ ap (λ os. print_entry e ∷ os) (scan_rest tail es ps)

pub scan_list :
    (tail : Bytes) (es : List Entry)
    → AllPrintable es
    → scan_objects (pos 0) none (print_list tail es) ≡ map print_entry es
unfolding scan_objects
scan_list tail [] p = refl
scan_list tail (e ∷ es) (p, ps) =
    scan_entry e p (print_rest tail es) ∙ ap (λ os. print_entry e ∷ os) (scan_rest tail es ps)

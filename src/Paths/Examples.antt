-- ===== src/Paths/Examples.antt =====
-- Runs of the path functions, after the tests of ncda/src/bpf.rs.
use ncda.Base.{◌≡◌, refl, [], ◌∷◌, ◌++◌, Bytes, ascii, arith, path_components, split_on, All}
use ncda.Paths.{
  utf8_lead, utf8_rest, utf8_head, display_char, display_from, display_path, push_component,
  fold_components, normalize_relative_path, normalize_absolute_path, trim_deleted_suffix,
  classify_pseudo_path, memory, ignore,
}
use ncda.Paths.Display
use ncda.Paths.Normal.{IsNormal, surviving}
use ncda.Paths.Normal

program : Unit {0}
unfolding utf8_lead utf8_rest utf8_head display_char display_from display_path push_component
    fold_components normalize_relative_path normalize_absolute_path trim_deleted_suffix
    classify_pseudo_path
program = tt

normalized : normalize_absolute_path (ascii "/var/./log//../lib/app") ≡ ascii "/var/lib/app"
unfolding program
normalized = refl

above_root : normalize_absolute_path (ascii "/../../etc") ≡ ascii "/etc"
unfolding program
above_root = refl

anonymous_memory :
    classify_pseudo_path (ascii "/memfd:a/b (deleted)")
    ≡ memory (ascii "/[memory]/memfd:a" ++ 0xE2 ∷ 0x88 ∷ 0x95 ∷ ascii "b")
unfolding program
anonymous_memory = refl

a_socket : classify_pseudo_path (ascii "socket:[12]") ≡ ignore
unfolding program
a_socket = refl

-- A line feed, an invalid byte and a backslash.
abbrev odd_path : Bytes
odd_path = b'/' ∷ 10 ∷ 0xFF ∷ b'\\' ∷ []

printed : display_path odd_path ≡ ascii "/\\x0A\\xFF\\\\"
unfolding program
printed = refl

display_path-injective_example : odd_path ≡ odd_path
unfolding program
display_path-injective_example =
    Display.display_path-injective odd_path odd_path
      (omega arith, (omega arith, (omega arith, (omega arith, tt))))
      (omega arith, (omega arith, (omega arith, (omega arith, tt)))) refl

path_components-normalize_absolute_path_example :
    (path_components (normalize_absolute_path (ascii "/a/../b/."))
      ≡ surviving (split_on b'/' (ascii "/a/../b/.")))
    × All IsNormal (path_components (normalize_absolute_path (ascii "/a/../b/.")))
path_components-normalize_absolute_path_example =
    Normal.path_components-normalize_absolute_path (ascii "/a/../b/.")

-- ===== src/View/Layout.antt =====
-- The widths of a table's columns and the bars of ncda/src/tui/layout.rs, and the process names'
-- width of ncda/src/tui/mod.rs. Cells are counted; the rendering is left out.
use ncda.Base.{
  ℕ, zero, suc, ◌+◌, ◌-◌, ◌*◌, ◌/◌, ◌≤◌, ◌≡◌, ◌∙◌, [], ◌∷◌, ◌++◌, Bytes, arith, length,
  length-append, max, min, leb, nat_beq, saturating_sub, if◌then◌else◌, Bool-cases, inl, inr,
}

pub data WidthProfile : Type 0 where
  full compact minimal : WidthProfile

pub record TableColumns : Type 0 where
  pub profile : WidthProfile
  pub name : ℕ
  pub graph : ℕ

-- `clamp`
abbrev clamp : ℕ → ℕ → ℕ → ℕ
clamp n low high = min (max n low) high

pub for_width : ℕ → TableColumns
for_width width =
    if leb 96 width
    then (let flexible = saturating_sub width 51 in
        let graph = clamp (flexible / 3) 10 30 in
        record { profile = full; name = max (saturating_sub flexible graph) 1; graph = graph })
    else if leb 60 width
    then (let flexible = saturating_sub width 22 in
        let graph = clamp (flexible / 3) 8 20 in
        record { profile = compact; name = max (saturating_sub flexible graph) 1; graph = graph })
    else record { profile = minimal; name = max (saturating_sub width 12) 1; graph = 0 }

pub rendered_width : TableColumns → ℕ
rendered_width columns = elim columns.profile [
  | full ↦ 2 + columns.name + columns.graph + 49
  | compact ↦ 2 + columns.name + columns.graph + 20
  | minimal ↦ 2 + columns.name + 10
]

-- The columns fill the width of the terminal, at every width of 13 cells or more; below that they
-- take 13.
pub rendered_width-for_width : (width : ℕ) → rendered_width (for_width width) ≡ max width 13
unfolding rendered_width for_width
rendered_width-for_width width = elim (Bool-cases (leb 96 width)) [
  | inl e ↦ rw e (ground (arith, e))
  | inr e ↦ elim (Bool-cases (leb 60 width)) [
    | inl f ↦ rw (e, f) (ground (arith, f))
    | inr f ↦ rw (e, f) (ground (arith, f))
  ]
]

-- `str::repeat`
abbrev pub repeat : Bytes → ℕ → Bytes
repeat text zero = []
repeat text (suc n) = text ++ repeat text n

abbrev filled_cell : Bytes
filled_cell = 0xE2 ∷ 0x96 ∷ 0x88 ∷ []

abbrev empty_cell : Bytes
empty_cell = 0xE2 ∷ 0x96 ∷ 0x91 ∷ []

pub filled_cells : ℕ → ℕ → ℕ → ℕ
filled_cells total maximum width =
    min (if nat_beq maximum 0 then 0 else total * width / maximum) width

pub byte_bar : ℕ → ℕ → ℕ → Bytes
byte_bar total maximum width =
    if nat_beq width 0
    then []
    else let filled = filled_cells total maximum width in
      repeat filled_cell filled ++ repeat empty_cell (width - filled)

length-repeat : (text : Bytes) (n : ℕ) → length (repeat text n) ≡ length text * n
length-repeat text zero = omega arith
length-repeat text (suc n) =
    length-append text (repeat text n) ∙ omega (arith, length-repeat text n)

-- A bar has as many cells as the column is wide, of three bytes each, whatever the total.
length-byte_bar : (total maximum width : ℕ) → length (byte_bar total maximum width) ≡ 3 * width
unfolding byte_bar filled_cells
length-byte_bar total maximum width = elim (Bool-cases (nat_beq width 0)) [
  | inl e ↦ rw e (ground (arith, e))
  | inr e ↦ rw e (cells (filled_cells total maximum width) (omega arith))
]
  where
    cells :
        (filled : ℕ)
        → filled ≤ width
        → length (repeat filled_cell filled ++ repeat empty_cell (width - filled)) ≡ 3 * width
    cells filled h =
        length-append (repeat filled_cell filled) (repeat empty_cell (width - filled))
        ∙ omega
            (arith, h, length-repeat filled_cell filled, length-repeat empty_cell (width - filled))

-- ===== src/View/Presses.antt =====
-- The event loop of ncda/src/tui/mod.rs does not panic on any keys.
use ncda.Base.{◌≤◌, ◌≡◌, Option, some, All, u32_max, list_eq, nat_eq}
use ncda.App.{AppState}
use ncda.Process.{ProcessInfo}
use ncda.View.Rows.{values}

-- The table's process numbers fit `u32`.
abbrev pub HasPids : AppState → Type 0
HasPids state = All (λ (i : ProcessInfo). i.pid ≤ u32_max) (values state.process_table.processes)

-- The code returns.
abbrev Returns : {A : Type 0} → Option A → Type 0
Returns {A} o = (a : A) × (o ≡ some a)

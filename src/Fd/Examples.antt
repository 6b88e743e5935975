-- ===== src/Fd/Examples.antt =====
-- Runs of the descriptor cache at concrete inputs, after the tests of ncda/src/bpf.rs.
use ncda.Base.{ℕ, ◌≡◌, ◌⊎◌, refl, none, some, List, [], ◌∷◌, ascii, decimal, nat_beq, if◌then◌else◌}
use ncda.Procfs.{Procfs}
use ncda.Paths.{
  utf8_lead, utf8_rest, utf8_head, display_char, display_from, display_path, push_component,
  fold_components, normalize_relative_path, normalize_absolute_path, trim_deleted_suffix,
  classify_pseudo_path, unresolved_path, unresolved_fd, memory,
}
use ncda.Fd.{
  resolved, unresolved, new, store, on_close, on_close_range, on_process_reset, invalidate_all,
  lookup, resolve, resolve_existing, resolve_absolute, resolve_relative, resolve_ordinary,
  resolve_proc_target, ordinary_target, strip_container_root, confirm, at_fdcwd,
}
use ncda.Fd.Lifecycle
use ncda.Fd.Confirmed.{IsAbsolute, Confirms}
use ncda.Fd.Confirmed
use ncda.Fd.Lifecycle.{
  Call, resolve_call, store_call, close_call, range_call, reset_call, step, run, expected,
}

program : Unit {0}
unfolding utf8_lead utf8_rest utf8_head display_char display_from display_path push_component
    fold_components normalize_relative_path normalize_absolute_path trim_deleted_suffix
    classify_pseudo_path unresolved_path unresolved_fd new store on_close on_close_range
    on_process_reset invalidate_all lookup resolve resolve_existing resolve_absolute
    resolve_relative resolve_ordinary resolve_proc_target ordinary_target strip_container_root
    confirm step run expected decimal
program = tt

-- A process in a container whose root is /c, with one open file.
abbrev contained : Procfs
contained = record {
  cwd = λ pid. some (ascii "/c/srv");
  fd = λ pid fd. if nat_beq fd 3 then some (ascii "/c/srv/log") else none;
  root = λ pid. some (ascii "/c");
  comm = λ pid. none;
  cgroup = λ pid. none;
}

confirmed : (resolve contained 9 3 at_fdcwd (ascii "log") 0 new).0 ≡ resolved (ascii "/srv/log")
unfolding program
confirmed = refl

-- Procfs knows no such descriptor.
not_confirmed :
    (resolve contained 9 4 at_fdcwd (ascii "log") 0 new).0
    ≡ unresolved (ascii "/[unresolved]/pid-9/fd-4/log")
unfolding program
not_confirmed = refl

abbrev calls : List Call
calls =
    resolve_call contained 9 3 at_fdcwd (ascii "log") 0
    ∷ store_call 9 3 (ascii "/srv/log")
    ∷ store_call 9 5 (ascii "/srv/b")
    ∷ store_call 8 5 (ascii "/x")
    ∷ range_call 9 4 7 0
    ∷ close_call 8 3
    ∷ []

kept : lookup 9 3 (run new calls) ≡ some (ascii "/srv/log")
unfolding program
kept = refl

closed : lookup 9 5 (run new calls) ≡ none
unfolding program
closed = refl

lookup-run_example : lookup 8 5 (run new calls) ≡ expected 8 5 calls (lookup 8 5 new)
lookup-run_example = Lifecycle.lookup-run calls 8 5 new

resolve-resolved_example :
    (◌≡◌ {A = ℕ} 0 0)
    × ((classify_pseudo_path (ascii "log") ≡ memory (ascii "/srv/log"))
        ⊎ (IsAbsolute (ascii "log") (ascii "/srv/log") ⊎ Confirms contained 9 3 (ascii "/srv/log")))
resolve-resolved_example =
    Confirmed.resolve-resolved contained 9 3 at_fdcwd (ascii "log") (ascii "/srv/log") 0 new
      confirmed

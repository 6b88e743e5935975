-- ===== src/Lib.antt =====
-- ncda shows the file activity of a Linux system like a disk-usage browser. An eBPF program pairs the
-- entries and exits of system calls and sends records through a ring buffer; the userspace reader parses
-- them, and `AppState` ingests each batch: it resolves descriptors to paths by a cache over procfs,
-- and counts the operations in a tree of the file system, in a table of the processes, in a rate tracker
-- and in an event log. The terminal interface reads these.
--
-- The modules, with the files that they model:
--   Base       shared names: byte strings, lists, saturating `u64` arithmetic, Boolean tests;
--              Base/HashMap stands for std's maps and sets, as association lists. A map iterates in the
--              order of its list, where std leaves the order open
--   Stats      `NodeStats` and `OpKind` of ncda/src/model.rs
--   Tree       `TreeNode` and `FileTree` of ncda/src/model.rs: one function per method, `walk` for the
--              loop of `record_stats`, `update_node` for `find_node_mut` and a change there
--   Rate       `RateTracker` of ncda/src/rate.rs, with the buckets of its queue
--   Events     `EventLog` of ncda/src/rate.rs: recording, expiry, the index of sums by prefix
--              and the query; Events/Query/Held has its runs as lists of actions
--   Ebpf       the hooks of ncda-ebpf/src/main.rs as functions on its maps, with what the kernel's
--              helpers answer in one hook as a `Context`; Ebpf/Counters also has `capture_stats` of
--              ncda/src/bpf.rs
--   Programs   the loading, attaching and detaching of the programs in ncda/src/bpf.rs; the library that
--              makes the system calls is a parameter
--   Wire       `BpfEvent` and `parse_event` of ncda/src/bpf.rs; Wire/Layout writes the records of
--              ncda-common/src/lib.rs as the `repr(C)` layout has them
--   Reader     `drain_ring_batch`, `send_batch` and the drain at shutdown of `reader_loop`, in
--              ncda/src/bpf.rs; the receiver's answers are a parameter
--   Pipeline   the tasks of ncda/src/main.rs and the channel between them: `reader_loop`, the aggregator
--              and the monitors; Pipeline/Turns runs them in any order
--   Paths      the path functions of ncda/src/bpf.rs: normalisation, pseudo paths, rendering
--   Procfs     what the kernel's procfs answers while an event is handled: a parameter
--   Fd         `FdPathCache` of ncda/src/bpf.rs
--   Container  `ContainerResolver` of ncda/src/container.rs; Container/Discovery reads what the commands
--              print, with the JSON scanners of Container/Json
--   Filter     the filter language of ncda/src/tui/filter.rs: queries, the activity that they match, the
--              statistics and processes that they leave
--   Process    `ProcessTable` of ncda/src/process.rs
--   App        `AppState` of ncda/src/tui/app.rs: App/Groups has the coalescing of reads and writes,
--              App/Batches the loop of `ingest` and its flushes. Each event comes with a `Procfs`
--   View       the interface without its drawing: `ViewState` of ncda/src/tui/app.rs; View/Rows the rows
--              of ncda/src/tui/flat_view.rs, tree_view.rs and `ProcessTable::sorted`; View/Input and its
--              panes View/Files, View/Processes, View/Editor the keys of ncda/src/tui/input.rs;
--              View/Session the event loop of ncda/src/tui/mod.rs; View/Layout the widths of
--              ncda/src/tui/layout.rs
--
-- A `&str`, `String` or `&[u8]` is the list of its bytes. Machine integers are natural numbers with
-- their saturation or wrap-around written out, `i32` and `i64` integers of two cases. Instants and
-- durations are nanoseconds. A method that changes `self` returns the new state, with its result before
-- it in a pair. A panic is `none`.
--
-- Loops are structural recursions. `decimal` writes up to 20 digits, as many as a `u64` has;
-- `display_from` and `words_from` have as many rounds as the text has bytes, and each round takes a byte
-- at least.
-- The drain at shutdown has one round more than the ring has records, and each round but the last
-- takes a full batch of them.
--
-- The event loop computes with the state under a lock that it takes anew, so a round is given a state
-- for each lock; the lock for drawing and the first after the key see the same one. The height of a page
-- is given. `flatten_recurse` makes the lines below a child before the children are sorted, since they
-- do not depend on the order. `sort_by` is a stable insertion sort; Unicode's lower case is a parameter
-- of the filters.
--
-- The reader is a state machine whose states are the places where it awaits. A run of the tasks is a list
-- of turns, so that every interleaving at those places is one. `rounds_left` bounds the rounds after a
-- request to shut down by the records in the ring and the batches in the channel.
--
-- Not modelled: the commands that list containers, the division of a rate by the window on `f64`, the
-- drawing, the terminal, the log, process start-up and the benchmark.
pub mod App
pub mod Base
pub mod Container
pub mod Ebpf
pub mod Events
pub mod Fd
pub mod Filter
pub mod Paths
pub mod Pipeline
pub mod Process
pub mod Procfs
pub mod Programs
pub mod Rate
pub mod Reader
pub mod Stats
pub mod Tree
pub mod View
pub mod Wire

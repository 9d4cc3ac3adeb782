-- ===== src/Lib.antt =====
-- Clash-Verge-Buty: a model of the program's core logic, with proofs.
--
-- The program is a desktop shell around the Clash proxy core. Its Rust part, src-tauri, keeps the
-- configurations and the profiles on disk, schedules background work, supervises its own process
-- through a helper program, guards the creation of its main window, starts and recovers the core,
-- and takes over the system proxy. The parts modelled here:
--
--   Config.Draft      src-tauri/src/config/draft.rs. `Draft<T>` is a record of the committed value and
--     the optional draft. A mutable reference that a method hands out is an update by a function.
--   Config.Profiles   src-tauri/src/config/profiles.rs and prfitem.rs. `Store` is the profiles in
--     memory, what `profiles.yaml` holds, the other files by path, and the flag that blocks writes;
--     `Machine` is what the environment answers: how file names resolve, which files can be written
--     or removed, the clock. A method is a function of a store into a store and a result, so that an
--     early return keeps what was changed before it. Item, Store and Lookup hold the data and the
--     searches; Changes and Methods the methods.
--   Logging           src-tauri/src/logging/buffer.rs, the ring of log lines.
--   Watchdog          src-tauri/watchdog/src/main.rs. `on_exit` is the body of the supervisor's loop
--     after one run of the GUI, and `supervise` is the loop on a list of outcomes with their times.
--   Window            src-tauri/src/window/state.rs. The atomics are the fields of one record.
--   Scheduler.OneShot src-tauri/src/core/scheduler/one_shot.rs. Each section under a lock is one step;
--     a worker is a state machine with the phases `ready`, `waiting` and `executing`, and an event is
--     a call or a step of any worker, so that a list of events is an interleaving.
--   Enhance           src-tauri/src/enhance. Yaml is the interface of the crate serde_yaml, with the laws that
--     the proofs use; Tun, Field, Merge and Chain model the files of these names, and Pipeline is
--     `enhance` of mod.rs, for a build on Windows. The script engine (rquickjs), the order in which a
--     HashSet gives its elements, and the files on disk are parameters.
--   Scheduler.Periodic src-tauri/src/core/scheduler/periodic.rs and `Schedule` of mod.rs. Which calls of
--     the crate delay_timer succeed is a parameter; the state keeps a trace of these calls.
--   Timer             src-tauri/src/core/timer.rs, on the profiles' items and the periodic scheduler. `gen_map` is
--     the wanted intervals, `sync` the two loops over them; the order of a HashMap is a parameter.
--   Help              src-tauri/src/utils/help.rs: `write_file_atomic` and `save_yaml`, on a file system whose
--     calls may each fail, and which keeps its earlier states.
--   Manager           src-tauri/src/core/manager: the atomics, the lock and the tasks of process.rs are one
--     record. What a task does between two of its waits is one step, and a list of events is an
--     interleaving. Starting holds `start_core_locked` and its callers, Runs the events. Upgrade is
--     `upgrade_core` of update.rs with its roll-back, on the three executables and what each call
--     answers; Change is `change_core`, on the drafts of the settings and of the core's configuration.
--   Proxy             src-tauri/src/core/sysopt: `Sysopt` is a record of what the program remembers of the
--     system proxy, together with the settings of the system; Taking, Giving and Guard hold the methods
--     of proxy.rs and the cycle of guard.rs. The crate sysproxy is a parameter, System.
--   Verge             src-tauri/src/config/verge.rs: the settings; Patch is `patch_verge` of
--     src-tauri/src/features/verge_config.rs, for a build on Windows, with the draft of the settings and
--     the calls of the other parts as a parameter, Program.
--   Clash             src-tauri/src/config/clash.rs: the settings of the core and their guards. The parser and
--     the printer of `SocketAddr` are parameters.
--
-- Shared: Prelude (tests with Boolean results, lists over the native numbers, integers, association
-- lists for the maps).
--
-- Interaction: the profiles and the settings are held in drafts; the window's saves, the profile updates and the
-- debounced writes of the program go through the one-shot scheduler; the timer keeps the tasks of the
-- periodic scheduler in step with the profiles; the watchdog restarts the
-- program when it ends with the code that asks for it.
--
-- Bounds: 64-bit counters wrap at 2 ^ 64, written out. The theorems on runs of the one-shot scheduler
-- ask that the counter of generations does not wrap, that is, for fewer than 2 ^ 64 events. Sums of
-- times are not bounded, but for the saturating ones of the timer. The theorem on the generations of the
-- core asks for fewer than 2 ^ 64 events. No function needs fuel: all loops run over a list, or, for
-- the writes of the proxy, over their three attempts.
--
-- Not modelled: the counter of generations is fetched before the lock is taken, and the two steps are
-- one here. In the core manager what runs between two waits is one step, but for the end of a start, which
-- reads the active generation in one step and says that the core is ready in another; `upgrade_core`
-- and `change_core` (update.rs) are functions of their own, and `upgrade_core` takes no part in the runs of
-- Manager.Runs.
-- `patch_verge` is a step up to its draft, in which others may change the settings, and a step from there
-- to its end. On the disk renames are whole and in their order. The directories of the
-- program are known; the mutexes of the drafts, and calls of the operating system, of Tauri and of the
-- network, which are parameters where a model needs their answers; the user interface, the Windows service
-- and the vendored crates.
pub mod Clash
pub mod Config
pub mod Enhance
pub mod Help
pub mod Logging
pub mod Manager
pub mod Prelude
pub mod Proxy
pub mod Scheduler
pub mod Timer
pub mod Verge
pub mod Watchdog
pub mod Window

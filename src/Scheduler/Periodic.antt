-- ===== src/Scheduler/Periodic.antt =====
-- src-tauri/src/core/scheduler/periodic.rs, and `Schedule` of mod.rs: the registry of repeated tasks.
-- The crate `delay_timer` is a parameter that says which of its calls succeed; `calls` is the trace
-- of the calls that matter, the last one first.
pub mod Placing
pub mod Tasks
pub mod Schedules
mod Tests
use Prim.Native.Char.{Char, code}
use Prim.Native.String.{[] as end_of_text, ◌∷◌ as ◌⊳◌}
use clash_verge_buty.Prelude.Assoc.{Assoc, lookup, insert, remove}
use clash_verge_buty.Prelude.{
  ℕ, ◌+◌, ◌%◌, String, Bool, true, false, ◌&&◌, ◌||◌, Option, none, some, List, [], ◌∷◌, ◌++◌, ◌==◌,
  leb, eq_nat, eq_string, if◌then◌else◌,
}

abbrev pub u64_size : ℕ
u64_size = 18446744073709551616

pub data Schedule : Type 0 where
  seconds minutes : ℕ → Schedule
  cron : String → Schedule

abbrev pub same_schedule : Schedule → Schedule → Bool
same_schedule (seconds m) (seconds n) = m == n
same_schedule (minutes m) (minutes n) = m == n
same_schedule (cron s) (cron t) = s == t
same_schedule (seconds m) (minutes n) = false
same_schedule (seconds m) (cron t) = false
same_schedule (minutes m) (seconds n) = false
same_schedule (minutes m) (cron t) = false
same_schedule (cron s) (seconds n) = false
same_schedule (cron s) (minutes n) = false

-- `char::is_whitespace`
abbrev pub is_whitespace : Char → Bool
is_whitespace c =
    let n = code c in
    (leb 9 n && leb n 13)
    || (n == 32
        || (n == 133
            || (n == 160
                || (n == 5760
                    || ((leb 8192 n && leb n 8202)
                        || (n == 8232
                            || (n == 8233 || (n == 8239 || (n == 8287 || n == 12288)))))))))

-- `expression.trim().is_empty()`
unfoldable pub is_blank : String → Bool
is_blank end_of_text = true
is_blank (c ⊳ s) = let rest = is_blank s in is_whitespace c && rest

unfoldable pub is_valid : Schedule → Bool
unfolding is_blank
is_valid (seconds n) = if n == 0 then false else true
is_valid (minutes n) = if n == 0 then false else true
is_valid (cron expression) = if is_blank expression then false else true

pub record JobEntry : Type 0 where
  pub task_id : ℕ
  pub schedule : Schedule

-- Which calls of `delay_timer` succeed.
pub record Timer : Type 0 where
  pub builds : ℕ → Schedule → Bool
  pub adds : ℕ → Bool
  pub removes : ℕ → Bool
  pub advances : ℕ → Bool

pub data Call : Type 0 where
  added removed : ℕ → Call

pub record Scheduler : Type 0 where
  pub jobs : Assoc String JobEntry
  pub next_task_id : ℕ
  pub calls : List Call

abbrev pub init : Scheduler
init = record { jobs = []; next_task_id = 1; calls = [] }

pub data Error : Type 0 where
  bad_schedule build_failed add_failed remove_failed advance_failed : Error

abbrev place : ℕ → String → Schedule → Option JobEntry → Scheduler → Scheduler
place task_id key schedule none s = record s {
  jobs = insert key (record { task_id = task_id; schedule = schedule }) s.jobs;
  calls = added task_id ∷ s.calls;
}
place task_id key schedule (some old) s = record s {
  jobs = insert key (record { task_id = task_id; schedule = schedule }) s.jobs;
  calls = removed old.task_id ∷ added task_id ∷ s.calls;
}

abbrev unchanged : Schedule → Option JobEntry → Bool
unchanged schedule none = false
unchanged schedule (some entry) = same_schedule entry.schedule schedule

abbrev pub removals : Assoc String JobEntry → List Call → List Call
removals [] calls = calls
removals ((key, entry) ∷ m) calls = removals m (removed entry.task_id ∷ calls)

module _ (t : Timer) where
  -- A failure to remove the task that is replaced is only logged.
  install_found : String → Schedule → Option JobEntry → Scheduler → Scheduler × Option Error
  install_found key schedule found s =
      let s' = record s { next_task_id = (s.next_task_id + 1) % u64_size } in
      if unchanged schedule found
      then (s, none)
      else if t.builds s.next_task_id schedule
      then if t.adds s.next_task_id
        then (place s.next_task_id key schedule found s', none)
        else (s', some add_failed)
      else (s', some build_failed)

  unfoldable pub install : String → Schedule → Scheduler → Scheduler × Option Error
  unfolding install_found
  install key schedule s =
      if is_valid schedule
      then install_found key schedule (lookup key s.jobs) s
      else (s, some bad_schedule)

  unfoldable pub upsert : String → Schedule → Scheduler → Scheduler × Option Error
  unfolding install
  upsert key schedule s = install key schedule s

  remove_found : String → Option JobEntry → Scheduler → Scheduler × Option Error
  remove_found key none s = (s, none)
  remove_found key (some entry) s = (
    record s { jobs = remove key s.jobs; calls = removed entry.task_id ∷ s.calls },
    if t.removes entry.task_id then none else some remove_failed,
  )

  unfoldable pub remove_task : String → Scheduler → Scheduler × Option Error
  unfolding remove_found
  remove_task key s = remove_found key (lookup key s.jobs) s

  -- The second component says whether the task exists, or is the error.
  unfoldable pub trigger_found : Option JobEntry → Option Error × Bool
  trigger_found none = (none, false)
  trigger_found (some entry) =
      if t.advances entry.task_id then (none, true) else (some advance_failed, false)

  unfoldable pub trigger : String → Scheduler → Option Error × Bool
  unfolding trigger_found
  trigger key s = trigger_found (lookup key s.jobs)

  any_failure : Assoc String JobEntry → Bool
  any_failure [] = false
  any_failure ((key, entry) ∷ m) =
      let rest = any_failure m in if t.removes entry.task_id then rest else true

  unfoldable pub shutdown : Scheduler → Scheduler × Option Error
  unfolding any_failure
  shutdown s = (
    record s { jobs = []; calls = removals s.jobs s.calls },
    if any_failure s.jobs then some remove_failed else none,
  )

pub data Op : Type 0 where
  upserts : String → Schedule → Op
  removes_key : String → Op
  shuts_down : Op

unfoldable pub step : Timer → Op → Scheduler → Scheduler
step t (upserts key schedule) s = (upsert t key schedule s).0
step t (removes_key key) s = (remove_task t key s).0
step t shuts_down s = (shutdown t s).0

-- The timer may answer otherwise at every step.
unfoldable pub run : List (Timer × Op) → Scheduler → Scheduler
run [] s = s
run ((t, op) ∷ ops) s = run ops (step t op s)

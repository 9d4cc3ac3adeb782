-- ===== src/Timer/Due.antt =====
-- `catch_up` of src-tauri/src/core/timer.rs: the profiles that are overdue at the start.
use clash_verge_buty.Prelude.Assoc.{lookup}
use clash_verge_buty.Prelude.Text.{concat}
use clash_verge_buty.Prelude.Int.{pos}
use clash_verge_buty.Prelude.{
  ℕ, ◌+◌, ◌*◌, ◌<◌, ◌≡◌, refl, ◌∙◌, String, true, ◌&&◌, Option, none, some, List, [], ◌∷◌, leb, ltb,
  eq_nat, eq_string, if◌then◌else◌, arith,
}
use clash_verge_buty.Config.Profiles.Item.{PrfItem}
use clash_verge_buty.Scheduler.Periodic.{Scheduler, Timer, Error, trigger, trigger_found, JobEntry}
use clash_verge_buty.Timer.{
  task_prefix, i64_max, is_due, due_task, interval_of, triggered, trigger_due, catch_up_items,
  catch_up,
}

is_due_lem :
    (now interval updated : ℕ)
    → now < i64_max
    → is_due (pos now) interval updated ≡ leb (updated + interval * 60) now
unfolding is_due
is_due_lem now interval updated h = ground arith

abbrev overdue_since : ℕ → Option String → Option ℕ → Option ℕ → Option String
overdue_since now (some uid) (some n) (some updated) =
    if ltb 0 n && leb (updated + n * 60) now then some (concat task_prefix uid) else none
overdue_since now uid interval updated = none

abbrev registered_first : String → Option JobEntry → List String → List String
registered_first key none rest = rest
registered_first key (some entry) rest = key ∷ rest

abbrev if_registered : Option String → Scheduler → List String → List String
if_registered none s rest = rest
if_registered (some key) s rest = registered_first key (lookup key s.jobs) rest

-- The registered tasks of the profiles that have an interval, and were updated more than it ago.
abbrev pub overdue : ℕ → List PrfItem → Scheduler → List String
overdue now [] s = []
overdue now (item ∷ items) s =
    if_registered (overdue_since now item.uid (interval_of item.option) item.updated) s
      (overdue now items s)

due_task_lem :
    (now : ℕ) (uid : Option String) (interval updated : Option ℕ)
    → now < i64_max
    → due_task (pos now) uid interval updated ≡ overdue_since now uid interval updated
due_task_lem now none interval updated h = refl
due_task_lem now (some uid) none updated h = refl
due_task_lem now (some uid) (some n) none h = refl
due_task_lem now (some uid) (some n) (some updated) h = ground (arith, is_due_lem now n updated h)

triggered_lem :
    (t : Timer) (key : String) (found : Option JobEntry) (rest : List String × Option Error)
    → ((id : ℕ) → t.advances id ≡ true)
    → triggered t key (trigger_found t found) rest ≡ (registered_first key found rest.0, rest.1)
unfolding trigger_found
triggered_lem t key none rest o = refl
triggered_lem t key (some entry) rest o = rw (o entry.task_id) refl

trigger_lem :
    (t : Timer) (task : Option String) (s : Scheduler) (rest : List String × Option Error)
    → ((id : ℕ) → t.advances id ≡ true)
    → trigger_due t task s rest ≡ (if_registered task s rest.0, rest.1)
unfolding trigger
trigger_lem t none s rest o = refl
trigger_lem t (some key) s rest o = triggered_lem t key (lookup key s.jobs) rest o

-- At the start of the program the tasks run at once are exactly the registered tasks of the profiles
-- whose last update is at least their interval ago, in the profiles' order, however large the
-- intervals and times are. (The timer does what it is asked to, and the clock is below the largest
-- 64-bit time.)
pub catch_up-overdue :
    (t : Timer) (now : ℕ) (items : List PrfItem) (s : Scheduler)
    → ((id : ℕ) → t.advances id ≡ true)
    → now < i64_max
    → catch_up t (pos now) (some items) s ≡ (overdue now items s, none)
unfolding catch_up catch_up_items
catch_up-overdue t now [] s o h = refl
catch_up-overdue t now (item ∷ items) s o h =
    trigger_lem t (due_task (pos now) item.uid (interval_of item.option) item.updated) s
      (catch_up_items t (pos now) items s) o
    ∙ rw
        (
          catch_up-overdue t now items s o h,
          due_task_lem now item.uid (interval_of item.option) item.updated h,
        )
        refl

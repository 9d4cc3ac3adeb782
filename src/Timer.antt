-- ===== src/Timer.antt =====
-- src-tauri/src/core/timer.rs: the periodic tasks that update the profiles, kept in step with the
-- profiles' intervals. `arrange` is the order in which a HashMap gives its entries.
pub mod Loops
pub mod Syncing
pub mod Due
mod Tests
use clash_verge_buty.Prelude.Assoc.{Assoc, lookup, insert, has_key}
use clash_verge_buty.Prelude.Text.{concat, strip_prefix, sort}
use clash_verge_buty.Prelude.Int.{ℤ, pos, negsuc}
use clash_verge_buty.Prelude.{
  ℕ, ◌+◌, ◌-◌, ◌*◌, min, String, Bool, true, false, Option, none, some, List, [], ◌∷◌, map, retain,
  ltb, leb, eq_nat, eq_string, ◌==◌, if◌then◌else◌,
}
use text.Mathlib.Text.{starts_with}
use clash_verge_buty.Config.Profiles.Item.{PrfItem, PrfOption}
use clash_verge_buty.Scheduler.Periodic.{
  Scheduler, JobEntry, Timer, Error, Schedule, minutes, upsert, remove_task, trigger,
}

abbrev pub task_prefix : String
task_prefix = "profile.update:"

-- `Option::unwrap_or`
abbrev unwrap_or {ℓ} : {A : Type ℓ} → A → Option A → A
unwrap_or a none = a
unwrap_or a (some b) = b

abbrev pub add_interval : Option PrfOption → Option String → Assoc String ℕ → Assoc String ℕ
add_interval none uid m = m
add_interval (some option) none m = m
add_interval (some option) (some uid) m =
    let interval = unwrap_or 0 option.update_interval in
    if ltb 0 interval then insert uid interval m else m

unfoldable pub gen_map_from : List PrfItem → Assoc String ℕ → Assoc String ℕ
gen_map_from [] m = m
gen_map_from (item ∷ items) m = gen_map_from items (add_interval item.option item.uid m)

unfoldable pub gen_map : Option (List PrfItem) → Assoc String ℕ
unfolding gen_map_from
gen_map none = []
gen_map (some items) = gen_map_from items []

-- `Scheduler::keys_with_prefix` of core/scheduler/periodic.rs.
unfoldable pub keys_with_prefix : String → Scheduler → List String
unfolding sort
keys_with_prefix prefix s = sort (retain (λ key. starts_with key prefix) (map (λ e. e.0) s.jobs))

-- The rest of a loop that an error ends.
abbrev pub and_then :
    Scheduler × Option Error → (Scheduler → Scheduler × Option Error) → Scheduler × Option Error
and_then (s, none) rest = rest s
and_then (s, some error) rest = (s, some error)

module _ (t : Timer) where
  unfoldable pub remove_unwanted :
      Assoc String ℕ → String → Option String → Scheduler → Scheduler × Option Error
  remove_unwanted desired key none s = (s, none)
  remove_unwanted desired key (some uid) s =
      if has_key uid desired then (s, none) else remove_task t key s

  unfoldable pub remove_all : Assoc String ℕ → List String → Scheduler → Scheduler × Option Error
  unfolding remove_unwanted
  remove_all desired [] s = (s, none)
  remove_all desired (key ∷ keys) s =
      and_then (remove_unwanted desired key (strip_prefix task_prefix key) s)
        (remove_all desired keys)

  unfoldable pub upsert_all : List (String × ℕ) → Scheduler → Scheduler × Option Error
  upsert_all [] s = (s, none)
  upsert_all ((uid, n) ∷ wanted) s =
      and_then (upsert t (concat task_prefix uid) (minutes n) s) (upsert_all wanted)

  unfoldable pub sync :
      (Assoc String ℕ → List (String × ℕ))
      → Option (List PrfItem)
      → Scheduler
      → Scheduler × Option Error
  unfolding remove_all upsert_all
  sync arrange items s =
      let desired = gen_map items in
      and_then (remove_all desired (keys_with_prefix task_prefix s) s)
        (upsert_all (arrange desired))

abbrev pub i64_max : ℕ
i64_max = 9223372036854775807

-- `i64::saturating_sub` of a number that is not negative.
abbrev saturating_sub : ℤ → ℕ → ℤ
saturating_sub (pos n) k = if leb k n then pos (n - k) else negsuc (min (k - n - 1) i64_max)
saturating_sub (negsuc n) k = negsuc (min (n + k) i64_max)

abbrev at_least : ℤ → ℕ → Bool
at_least (pos n) k = leb k n
at_least (negsuc n) k = false

-- Whether more than the interval has passed since the update.
unfoldable pub is_due : ℤ → ℕ → ℕ → Bool
is_due now interval updated =
    at_least (saturating_sub now (min updated i64_max)) (min (min interval i64_max * 60) i64_max)

abbrev pub interval_of : Option PrfOption → Option ℕ
interval_of none = none
interval_of (some option) = option.update_interval

abbrev pub due_task : ℤ → Option String → Option ℕ → Option ℕ → Option String
due_task now (some uid) (some n) (some updated) =
    if n == 0 then none else if is_due now n updated then some (concat task_prefix uid) else none
due_task now uid interval updated = none

module _ (t : Timer) where
  abbrev pub triggered :
      String → Option Error × Bool → List String × Option Error → List String × Option Error
  triggered key (some error, found) rest = ([], some error)
  triggered key (none, true) rest = (key ∷ rest.0, rest.1)
  triggered key (none, false) rest = rest

  abbrev pub trigger_due :
      Option String → Scheduler → List String × Option Error → List String × Option Error
  trigger_due none s rest = rest
  trigger_due (some key) s rest = triggered key (trigger t key s) rest

  -- The tasks that are run at once, in their order, and the error.
  unfoldable pub catch_up_items : ℤ → List PrfItem → Scheduler → List String × Option Error
  catch_up_items now [] s = ([], none)
  catch_up_items now (item ∷ items) s =
      trigger_due (due_task now item.uid (interval_of item.option) item.updated) s
        (catch_up_items now items s)

  unfoldable pub catch_up : ℤ → Option (List PrfItem) → Scheduler → List String × Option Error
  unfolding catch_up_items
  catch_up now none s = ([], none)
  catch_up now (some items) s = catch_up_items now items s

-- ===== src/Timer/Tests.antt =====
-- Tests of src-tauri/src/core/timer.rs, and its theorems at concrete inputs.
use clash_verge_buty.Prelude.Assoc.{Assoc, lookup, insert, remove}
use clash_verge_buty.Prelude.Int.{pos}
use clash_verge_buty.Prelude.Text.{sort, strip_prefix}
use clash_verge_buty.Prelude.{
  ℕ, ◌≡◌, refl, String, true, Option, none, some, List, [], ◌∷◌, arith, eq_string, eq_nat,
}
use clash_verge_buty.Config.Profiles.Item.{PrfItem}
use clash_verge_buty.Scheduler.Periodic.{
  Timer, Scheduler, minutes, seconds, upsert, install, is_valid, remove_task,
}
use clash_verge_buty.Scheduler.Periodic.Schedules.{scheduled, Obedient}
use clash_verge_buty.Timer.{
  gen_map, gen_map_from, keys_with_prefix, remove_unwanted, remove_all, upsert_all, sync, catch_up,
}
use clash_verge_buty.Timer.Syncing.{synced, Entries, sync-refines, sync-succeeds}
use clash_verge_buty.Timer.Due.{overdue, catch_up-overdue}

abbrev obedient : Timer
obedient = record {
  builds = λ id schedule. true;
  adds = λ id. true;
  removes = λ id. true;
  advances = λ id. true;
}

obedient-Obedient : Obedient obedient
obedient-Obedient = record { builds = λ id schedule. refl; adds = λ id. refl; removes = λ id. refl }

abbrev profile : String → Option ℕ → ℕ → PrfItem
profile uid interval updated = record {
  uid = some uid;
  itype = some "remote";
  name = none;
  file = none;
  desc = none;
  url = none;
  selected = none;
  extra = none;
  updated = some updated;
  option = some (record {
    user_agent = none;
    with_proxy = none;
    self_proxy = none;
    update_interval = interval;
    danger_accept_invalid_certs = none;
  });
  file_data = none;
}

-- "a" has lost its interval, "b" has another one, and "c" is new.
abbrev profiles : List PrfItem
profiles = profile "a" (some 0) 0 ∷ profile "b" (some 7) 100 ∷ profile "c" (some 1440) 1000 ∷ []

abbrev before : Scheduler
before = record {
  jobs =
      ("profile.update:a", record { task_id = 1; schedule = minutes 5 })
      ∷ ("profile.update:b", record { task_id = 2; schedule = minutes 5 })
      ∷ ("delay_test", record { task_id = 3; schedule = seconds 120 })
      ∷ [];
  next_task_id = 4;
  calls = [];
}

abbrev as_listed : Assoc String ℕ → List (String × ℕ)
as_listed m = m

after_b :
    scheduled (sync obedient as_listed (some profiles) before).0 "profile.update:b"
    ≡ some (minutes 7)
unfolding sync gen_map gen_map_from lookup insert keys_with_prefix sort remove_all remove_unwanted
    remove_task upsert_all upsert install is_valid strip_prefix remove
after_b = refl

listed-Entries : Entries (as_listed (gen_map (some profiles))) (gen_map (some profiles))
unfolding gen_map gen_map_from lookup insert
listed-Entries = record { found = λ uid. refl; single = refl }

sync-succeeds_example : (sync obedient as_listed (some profiles) before).1 ≡ none
sync-succeeds_example =
    sync-succeeds obedient as_listed (some profiles) before obedient-Obedient listed-Entries

sync-refines_example :
    scheduled (sync obedient as_listed (some profiles) before).0 "profile.update:a"
    ≡ synced (some profiles) (scheduled before) "profile.update:a"
sync-refines_example =
    sync-refines obedient as_listed (some profiles) before "profile.update:a" listed-Entries
      sync-succeeds_example

catch_up-overdue_example :
    catch_up obedient (pos 1000) (some profiles) before ≡ (overdue 1000 profiles before, none)
catch_up-overdue_example = catch_up-overdue obedient 1000 profiles before (λ id. refl) (omega arith)

overdue_b : overdue 1000 profiles before ≡ "profile.update:b" ∷ []
unfolding lookup
overdue_b = refl

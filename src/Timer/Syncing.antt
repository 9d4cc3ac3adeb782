-- ===== src/Timer/Syncing.antt =====
-- `sync` of src-tauri/src/core/timer.rs against its specification, on the schedules by key.
use clash_verge_buty.Prelude.Assoc.{Assoc, lookup, lookup-insert}
use clash_verge_buty.Prelude.Text.{strip_prefix, contains-sort}
use clash_verge_buty.Prelude.{
  ℕ, ◌≡◌, refl, sym, ap, ◌∙◌, String, true, false, ◌&&◌, Option, none, some, List, [], ◌∷◌, eq_nat,
  eq_string, eq_iff, eq_option, Eq, ◌==◌, Bool-cases, if◌then◌else◌, arith, Option-cases, inl, inr,
  contains, contains-retain, retain, map, ltb,
}
use text.Mathlib.Text.{starts_with}
use clash_verge_buty.Config.Profiles.Item.{PrfItem, PrfOption}
use clash_verge_buty.Scheduler.Periodic.{Scheduler, JobEntry, Timer, Schedule, minutes}
use clash_verge_buty.Scheduler.Periodic.Schedules.{scheduled, schedule_of, Obedient}
use clash_verge_buty.Timer.{
  task_prefix, add_interval, gen_map_from, gen_map, keys_with_prefix, remove_all, upsert_all, sync,
}
use clash_verge_buty.Timer.Loops.{
  once, positive, unwanted, after_upserts, and_then-none, and_then_succeeds, remove_all-scheduled,
  remove_all_lem, upsert_all-scheduled, upsert_all_lem,
}

abbrev pub as_minutes : Option ℕ → Option Schedule
as_minutes none = none
as_minutes (some n) = some (minutes n)

abbrev positive_interval : Option ℕ → Option ℕ
positive_interval none = none
positive_interval (some n) = if n == 0 then none else some n

abbrev own_interval : Option PrfOption → Option ℕ
own_interval none = none
own_interval (some option) = positive_interval option.update_interval

abbrev later : Option ℕ → Option ℕ → Option ℕ
later none o = o
later (some n) o = some n

-- The interval, not 0, of the last profile with this uid that has one.
abbrev pub wanted : String → List PrfItem → Option ℕ
wanted uid [] = none
wanted uid (item ∷ items) =
    let rest = wanted uid items in
    later rest (if item.uid == some uid then own_interval item.option else none)

abbrev pub wanted_of : String → Option (List PrfItem) → Option ℕ
wanted_of uid none = none
wanted_of uid (some items) = wanted uid items

add_interval-lookup :
    (uid : String) (option : Option PrfOption) (own : Option String) (m : Assoc String ℕ)
    → lookup uid (add_interval option own m)
      ≡ later (if own == some uid then own_interval option else none) (lookup uid m)
add_interval-lookup uid none own m = ground (arith, Bool-cases (own == some uid))
add_interval-lookup uid (some option) none m = ground (arith, Eq.eqb_iff eq_option none (some uid))
add_interval-lookup uid (some option) (some v) m = elim (Option-cases option.update_interval) [
  | inl e ↦ ground (arith, eq_iff v uid, Eq.eqb_iff eq_option (some v) (some uid))
  | inr (n, e) ↦
      ground
        (arith, lookup-insert v uid n m, eq_iff v uid, Eq.eqb_iff eq_option (some v) (some uid))
]

gen_map_from-lookup :
    (uid : String) (items : List PrfItem) (m : Assoc String ℕ)
    → lookup uid (gen_map_from items m) ≡ later (wanted uid items) (lookup uid m)
unfolding gen_map_from
gen_map_from-lookup uid [] m = refl
gen_map_from-lookup uid (item ∷ items) m = ground (
  arith,
  gen_map_from-lookup uid items (add_interval item.option item.uid m),
  add_interval-lookup uid item.option item.uid m,
)

gen_map-lookup :
    (uid : String) (items : Option (List PrfItem))
    → lookup uid (gen_map items) ≡ wanted_of uid items
unfolding gen_map lookup
gen_map-lookup uid none = refl
gen_map-lookup uid (some items) = ground (arith, gen_map_from-lookup uid items [])

abbrev choose : Option String → Assoc String ℕ → Option Schedule → Option Schedule
choose none desired old = old
choose (some uid) desired old = as_minutes (lookup uid desired)

abbrev chosen : Option String → Option (List PrfItem) → Option Schedule → Option Schedule
chosen none items old = old
chosen (some uid) items old = as_minutes (wanted_of uid items)

chosen_lem :
    (stripped : Option String) (items : Option (List PrfItem)) (old : Option Schedule)
    → choose stripped (gen_map items) old ≡ chosen stripped items old
chosen_lem none items old = refl
chosen_lem (some uid) items old = ap as_minutes (gen_map-lookup uid items)

-- What `sync` is to make of a map of keys to schedules.
abbrev pub synced : Option (List PrfItem) → (String → Option Schedule) → String → Option Schedule
synced items old key = chosen (strip_prefix task_prefix key) items (old key)

-- The entries of a map, each once.
pub record Entries (l : List (String × ℕ)) (m : Assoc String ℕ) : Type 0 where
  pub found : (uid : String) → lookup uid l ≡ lookup uid m
  pub single : once l ≡ true

unregistered :
    (k : String) (m : Assoc String JobEntry)
    → contains (map (λ e. e.0) m) k ≡ false
    → lookup k m ≡ none
unfolding lookup
unregistered k [] h = refl
unregistered k ((j, entry) ∷ m) h = ground (arith, unregistered k m)

unlisted :
    (k uid : String) (s : Scheduler)
    → strip_prefix task_prefix k ≡ some uid
    → contains (keys_with_prefix task_prefix s) k ≡ false
    → scheduled s k ≡ none
unfolding keys_with_prefix strip_prefix
unlisted k uid s q h =
    let keys = map (λ e. e.0) s.jobs in
    let prefixed : starts_with k task_prefix ≡ true = ground (arith, q) in
    let missing : contains keys k ≡ false = ground (
      arith,
      h,
      contains-sort k (retain (λ key. starts_with key task_prefix) keys),
      contains-retain (λ key. starts_with key task_prefix) keys k,
    ) in
    ap schedule_of (unregistered k s.jobs missing)

module _ (t : Timer) (arrange : Assoc String ℕ → List (String × ℕ))
    (items : Option (List PrfItem)) where
  synced_lem :
      (desired : Assoc String ℕ) (l : List (String × ℕ)) (k : String) (stripped : Option String)
      (s : Scheduler)
      → strip_prefix task_prefix k ≡ stripped
      → Entries l desired
      → after_upserts l stripped (
          if contains (keys_with_prefix task_prefix s) k && unwanted desired stripped
          then none
          else scheduled s k)
        ≡ choose stripped desired (scheduled s k)
  synced_lem desired l k none s q x = ground arith
  synced_lem desired l k (some uid) s q x = ground (arith, x.found uid, unlisted k uid s q)

  -- A `sync` that succeeds makes of the registry just what the profiles say, at every key: the task
  -- of a uid is scheduled in the minutes of the last profile with this uid whose interval is not
  -- missing and not 0, there is none where there is no such profile, and the tasks that are not for
  -- profiles are as they were. (The HashMap gives each of its entries once.)
  pub sync-refines :
      (s : Scheduler) (k : String)
      → Entries (arrange (gen_map items)) (gen_map items)
      → (sync t arrange items s).1 ≡ none
      → scheduled (sync t arrange items s).0 k ≡ synced items (scheduled s) k
  unfolding sync
  sync-refines s k x h =
      let desired = gen_map items in
      let keys = keys_with_prefix task_prefix s in
      let first = remove_all t desired keys s in
      let (ok, later, e) = and_then-none first (upsert_all t (arrange desired)) h in
      ap (λ r. scheduled r.0 k) e
      ∙ upsert_all-scheduled t (arrange desired) k (strip_prefix task_prefix k) first.0 x.single
          refl later
      ∙ ap (after_upserts (arrange desired) (strip_prefix task_prefix k))
          (remove_all-scheduled t desired keys k s ok)
      ∙ synced_lem desired (arrange desired) k (strip_prefix task_prefix k) s refl x
      ∙ chosen_lem (strip_prefix task_prefix k) items (scheduled s k)

add-positive :
    (option : Option PrfOption) (uid : Option String) (m : Assoc String ℕ)
    → ((u : String) (n : ℕ) → lookup u m ≡ some n → ltb 0 n ≡ true)
    → (u : String) (n : ℕ) → lookup u (add_interval option uid m) ≡ some n
    → ltb 0 n ≡ true
add-positive none uid m p u n h = p u n h
add-positive (some option) none m p u n h = p u n h
add-positive (some option) (some uid) m p u n h = elim (Option-cases option.update_interval) [
  | inl e ↦ ground (arith, p u n)
  | inr (k, e) ↦ ground (arith, p u n, lookup-insert uid u k m)
]

from-positive :
    (items : List PrfItem) (m : Assoc String ℕ)
    → ((u : String) (n : ℕ) → lookup u m ≡ some n → ltb 0 n ≡ true)
    → (u : String) (n : ℕ) → lookup u (gen_map_from items m) ≡ some n
    → ltb 0 n ≡ true
unfolding gen_map_from
from-positive [] m p u n h = p u n h
from-positive (item ∷ items) m p u n h =
    from-positive items (add_interval item.option item.uid m)
      (add-positive item.option item.uid m p) u n h

gen_map-positive :
    (items : Option (List PrfItem)) (u : String) (n : ℕ)
    → lookup u (gen_map items) ≡ some n
    → ltb 0 n ≡ true
unfolding gen_map lookup
gen_map-positive none u n h = absurd (ground arith)
gen_map-positive (some items) u n h = from-positive items [] (λ v k e. absurd (ground arith)) u n h

positive_lem :
    (l : List (String × ℕ))
    → once l ≡ true
    → ((u : String) (n : ℕ) → lookup u l ≡ some n → ltb 0 n ≡ true)
    → positive l ≡ true
unfolding lookup
positive_lem [] o p = refl
positive_lem ((v, k) ∷ l) o p =
    let rest : positive l ≡ true =
      positive_lem l (ground arith) (λ u n h. ground (arith, o, p u n, eq_iff v u)) in
    ground (arith, rest, p v k, eq_iff v v)

-- A timer that does what it is asked to lets every `sync` succeed, whatever the profiles say and
-- whatever is registered. (The HashMap gives each of its entries once.)
pub sync-succeeds :
    (t : Timer) (arrange : Assoc String ℕ → List (String × ℕ)) (items : Option (List PrfItem))
    (s : Scheduler)
    → Obedient t
    → Entries (arrange (gen_map items)) (gen_map items)
    → (sync t arrange items s).1 ≡ none
unfolding sync
sync-succeeds t arrange items s o x =
    let desired = gen_map items in
    let first = remove_all t desired (keys_with_prefix task_prefix s) s in
    and_then_succeeds first (upsert_all t (arrange desired))
      (remove_all_lem t desired (keys_with_prefix task_prefix s) s o)
      (upsert_all_lem t (arrange desired) first.0 o (
        positive_lem (arrange desired) x.single
          (λ u n h. gen_map-positive items u n (sym (x.found u) ∙ h))))

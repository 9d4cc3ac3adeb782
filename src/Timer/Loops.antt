-- ===== src/Timer/Loops.antt =====
-- The two loops of `sync` of src-tauri/src/core/timer.rs.
use clash_verge_buty.Prelude.Assoc.{Assoc, lookup, has_key}
use clash_verge_buty.Prelude.Text.{
  concat, strip_prefix, strip_prefix-concat, strip_prefix-inverse, concat_cancel,
}
use clash_verge_buty.Prelude.{
  ℕ, ◌≡◌, refl, sym, ap, ◌∙◌, String, Bool, true, false, ◌&&◌, not, Option, none, some, List, [],
  ◌∷◌, ◌==◌, eq_nat, eq_string, eq_iff, if◌then◌else◌, arith, Bool-cases, inl, inr, contains, ltb,
}
use clash_verge_buty.Scheduler.Periodic.{
  Scheduler, Timer, Error, Schedule, minutes, upsert, is_valid,
}
use clash_verge_buty.Scheduler.Periodic.Schedules.{
  scheduled, Obedient, remove_task-scheduled, remove_task_lem, upsert-scheduled, upsert-others,
  upsert_lem,
}
use clash_verge_buty.Timer.{task_prefix, and_then, remove_unwanted, remove_all, upsert_all}

abbrev pub once : List (String × ℕ) → Bool
once [] = true
once ((uid, n) ∷ l) = not (has_key uid l) && once l

abbrev pub positive : List (String × ℕ) → Bool
positive [] = true
positive ((uid, n) ∷ l) = ltb 0 n && positive l

abbrev pub unwanted : Assoc String ℕ → Option String → Bool
unwanted desired none = false
unwanted desired (some uid) = not (has_key uid desired)

pub and_then-none :
    (r : Scheduler × Option Error) (rest : Scheduler → Scheduler × Option Error)
    → (and_then r rest).1 ≡ none
    → (r.1 ≡ none) × ((rest r.0).1 ≡ none) × (and_then r rest ≡ rest r.0)
and_then-none (s, none) rest h = (refl, h, refl)
and_then-none (s, some error) rest h = absurd (ground arith)

pub and_then_succeeds :
    (r : Scheduler × Option Error) (rest : Scheduler → Scheduler × Option Error)
    → r.1 ≡ none
    → (rest r.0).1 ≡ none
    → (and_then r rest).1 ≡ none
and_then_succeeds (s, none) rest h k = k
and_then_succeeds (s, some error) rest h k = absurd (ground arith)

remove_unwanted-scheduled :
    (t : Timer) (desired : Assoc String ℕ) (key k : String) (stripped : Option String)
    (s : Scheduler)
    → scheduled (remove_unwanted t desired key stripped s).0 k
      ≡ (if key == k && unwanted desired stripped then none else scheduled s k)
unfolding remove_unwanted
remove_unwanted-scheduled t desired key k none s = ground arith
remove_unwanted-scheduled t desired key k (some uid) s = elim (Bool-cases (has_key uid desired)) [
  | inl y ↦ rw y (ground arith)
  | inr n ↦ rw n (ground (arith, remove_task-scheduled t key k s))
]

remove_unwanted_lem :
    (t : Timer) (desired : Assoc String ℕ) (key : String) (stripped : Option String) (s : Scheduler)
    → Obedient t
    → (remove_unwanted t desired key stripped s).1 ≡ none
unfolding remove_unwanted
remove_unwanted_lem t desired key none s o = refl
remove_unwanted_lem t desired key (some uid) s o = elim (Bool-cases (has_key uid desired)) [
  | inl y ↦ rw y refl
  | inr n ↦ rw n (remove_task_lem t key s o)
]

pub remove_all-scheduled :
    (t : Timer) (desired : Assoc String ℕ) (keys : List String) (k : String) (s : Scheduler)
    → (remove_all t desired keys s).1 ≡ none
    → scheduled (remove_all t desired keys s).0 k ≡ (
        if contains keys k && unwanted desired (strip_prefix task_prefix k)
        then none
        else scheduled s k)
unfolding remove_all
remove_all-scheduled t desired [] k s h = refl
remove_all-scheduled t desired (key ∷ keys) k s h =
    let first = remove_unwanted t desired key (strip_prefix task_prefix key) s in
    let (ok, later, e) = and_then-none first (remove_all t desired keys) h in
    ap (λ r. scheduled r.0 k) e
    ∙ remove_all-scheduled t desired keys k first.0 later
    ∙ elim (Bool-cases (key == k)) [
      | inl same ↦
          let stripped : strip_prefix task_prefix key ≡ strip_prefix task_prefix k =
            ap (strip_prefix task_prefix) ((eq_iff key k).0 same) in
          ground (
            arith,
            ap (unwanted desired) stripped,
            remove_unwanted-scheduled t desired key k (strip_prefix task_prefix key) s,
          )
      | inr other ↦
          ground (arith, remove_unwanted-scheduled t desired key k (strip_prefix task_prefix key) s)
    ]

pub remove_all_lem :
    (t : Timer) (desired : Assoc String ℕ) (keys : List String) (s : Scheduler)
    → Obedient t
    → (remove_all t desired keys s).1 ≡ none
unfolding remove_all
remove_all_lem t desired [] s o = refl
remove_all_lem t desired (key ∷ keys) s o =
    and_then_succeeds (remove_unwanted t desired key (strip_prefix task_prefix key) s)
      (remove_all t desired keys)
      (remove_unwanted_lem t desired key (strip_prefix task_prefix key) s o)
      (remove_all_lem t desired keys
        (remove_unwanted t desired key (strip_prefix task_prefix key) s).0 o)

-- The texts that `concat` builds, compared.
concat-eq :
    (uid other k : String)
    → strip_prefix task_prefix k ≡ some other
    → (concat task_prefix uid == k) ≡ (uid == other)
concat-eq uid other k h = elim (Bool-cases (uid == other)) [
  | inl same ↦
      let joined : concat task_prefix uid ≡ k =
        ap (concat task_prefix) ((eq_iff uid other).0 same)
        ∙ strip_prefix-inverse task_prefix k other h in
      ground (arith, eq_iff (concat task_prefix uid) k)
  | inr different ↦
      let cancelled : concat task_prefix uid ≡ k → uid ≡ other = λ e.
        concat_cancel task_prefix uid other
          (e ∙ sym (strip_prefix-inverse task_prefix k other h)) in
      ground (arith, eq_iff (concat task_prefix uid) k, eq_iff uid other, cancelled)
]

abbrev pub replaced : Option ℕ → Option Schedule → Option Schedule
replaced none old = old
replaced (some n) old = some (minutes n)

abbrev pub after_upserts : List (String × ℕ) → Option String → Option Schedule → Option Schedule
after_upserts l none old = old
after_upserts l (some uid) old = replaced (lookup uid l) old

pub upsert_all-scheduled :
    (t : Timer) (l : List (String × ℕ)) (k : String) (stripped : Option String) (s : Scheduler)
    → once l ≡ true
    → strip_prefix task_prefix k ≡ stripped
    → (upsert_all t l s).1 ≡ none
    → scheduled (upsert_all t l s).0 k ≡ after_upserts l stripped (scheduled s k)
unfolding upsert_all lookup
upsert_all-scheduled t [] k none s o q h = refl
upsert_all-scheduled t [] k (some uid) s o q h = refl
upsert_all-scheduled t ((u, n) ∷ l) k none s o q h =
    let first = upsert t (concat task_prefix u) (minutes n) s in
    let (ok, later, e) = and_then-none first (upsert_all t l) h in
    ap (λ r. scheduled r.0 k) e
    ∙ upsert_all-scheduled t l k none first.0 (ground arith) q later
    ∙ upsert-others t (concat task_prefix u) k (minutes n) s (λ same.
      ground (arith, ap (strip_prefix task_prefix) same, strip_prefix-concat task_prefix u))
upsert_all-scheduled t ((u, n) ∷ l) k (some uid) s o q h =
    let first = upsert t (concat task_prefix u) (minutes n) s in
    let (ok, later, e) = and_then-none first (upsert_all t l) h in
    ap (λ r. scheduled r.0 k) e
    ∙ upsert_all-scheduled t l k (some uid) first.0 (ground arith) q later
    ∙ ground (
      arith,
      o,
      upsert-scheduled t (concat task_prefix u) k (minutes n) s ok,
      concat-eq u uid k q,
      eq_iff u uid,
    )

pub upsert_all_lem :
    (t : Timer) (l : List (String × ℕ)) (s : Scheduler)
    → Obedient t
    → positive l ≡ true
    → (upsert_all t l s).1 ≡ none
unfolding upsert_all is_valid
upsert_all_lem t [] s o p = refl
upsert_all_lem t ((u, n) ∷ l) s o p =
    and_then_succeeds (upsert t (concat task_prefix u) (minutes n) s) (upsert_all t l)
      (upsert_lem t (concat task_prefix u) (minutes n) s o (ground arith))
      (upsert_all_lem t l (upsert t (concat task_prefix u) (minutes n) s).0 o (ground arith))

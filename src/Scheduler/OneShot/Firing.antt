-- ===== src/Scheduler/OneShot/Firing.antt =====
-- Runs of src-tauri/src/core/scheduler/one_shot.rs: how often and when a task of it fires.
use clash_verge_buty.Prelude.Assoc.{lookup, remove}
use clash_verge_buty.Prelude.{
  ℕ, ◌+◌, ◌≤◌, ◌<◌, ◌≡◌, ◌≢◌, sym, String, true, false, some, List, arith, eq_nat, eq_string,
  length, contains,
}
use clash_verge_buty.Scheduler.OneShot.{
  OneShotScheduler, OneShotEntry, init, u64_size, max_pending, cancel_pending, cancel_running,
  cancel_found, cancel,
}
use clash_verge_buty.Scheduler.OneShot.Work.{Event, run}
use clash_verge_buty.Scheduler.OneShot.Entries.{Core, core}
use clash_verge_buty.Scheduler.OneShot.Generations.{Inv, Dead, distinct, lookup-dropped}
use clash_verge_buty.Scheduler.OneShot.Runs.{run-Inv, run-Dead, run-next, init-Inv, cancel-next}

-- Whatever events happen to a new scheduler, in any order and at any times, as long as they are
-- fewer than the generation counter holds: no generation is fired twice, and at most 256 tasks wait.
pub run-fires_once :
    (es : List (ℕ × Event))
    → 1 + length es < u64_size
    → (distinct (run es init).fired ≡ true) × (length (run es init).jobs ≤ max_pending)
run-fires_once es h = let x = run-Inv es init h init-Inv in (x.once, x.limited)

-- After any events, fewer than the counter holds, a waiting task has not fired, and a task that
-- waits under another key has another generation.
pub waiting-unfired :
    (es : List (ℕ × Event)) (k j : String) (e f : OneShotEntry)
    → 1 + length es < u64_size
    → lookup k (run es init).jobs ≡ some e
    → lookup j (run es init).jobs ≡ some f
    → k ≢ j
    → (contains (run es init).fired e.generation ≡ false) × (e.generation ≢ f.generation)
waiting-unfired es k j e f h p q n =
    let x = run-Inv es init h init-Inv in
    (x.unfired k e p, λ same_generation. n (x.single k j e f p q same_generation))

dropped-Dead :
    (key : String) (old : OneShotEntry) (c : Core)
    → Inv c
    → lookup key c.jobs ≡ some old
    → Dead old.generation (record c { jobs = remove key c.jobs })
dropped-Dead key old c x e = record {
  taken = x.below key old e;
  gone = λ k f h same_generation.
      let (q, p) = lookup-dropped key k f c.jobs h in
      q (x.single key k old f e p (sym same_generation));
  silent = x.unfired key old e;
}

cancel-Dead :
    (key : String) (old : OneShotEntry) (s : OneShotScheduler)
    → Inv (core s)
    → lookup key s.jobs ≡ some old
    → Dead old.generation (core (cancel key s).0)
unfolding cancel cancel_pending cancel_found cancel_running
cancel-Dead key old s x e = rw e (dropped-Dead key old (core s) x e)

-- A task that waits, and is cancelled, never fires, whatever happens before and after, as long as
-- the events are fewer than the generation counter holds.
pub cancel-prevents :
    (before after : List (ℕ × Event)) (key : String) (old : OneShotEntry)
    → 1 + length before + length after < u64_size
    → lookup key (run before init).jobs ≡ some old
    → contains (run after (cancel key (run before init)).0).fired old.generation ≡ false
cancel-prevents before after key old h e =
    let s = run before init in
    let grown : s.next_generation ≤ 1 + length before = run-next before init (omega arith) in
    let kept : (cancel key s).0.next_generation ≡ s.next_generation = cancel-next key s in
    (run-Dead old.generation after (cancel key s).0 (omega arith)
      (cancel-Dead key old s (run-Inv before init (omega arith) init-Inv) e)).silent

-- ===== src/Scheduler/OneShot.antt =====
-- src-tauri/src/core/scheduler/one_shot.rs: debounced one-shot tasks. The two maps behind their
-- locks, the generation counter and the spawned workers are the state; each section under a lock,
-- and each step of a worker between two of its waits, is a function. `fired` is a trace.
pub mod Work
pub mod Entries
pub mod Generations
pub mod Runs
pub mod Firing
mod Tests
use clash_verge_buty.Prelude.Assoc.{Assoc, lookup, insert, remove, has_key}
use clash_verge_buty.Prelude.{
  ℕ, ◌+◌, ◌%◌, String, Bool, true, false, Option, none, some, List, [], ◌∷◌, ◌++◌, ◌==◌, ◌!=◌, leb,
  eq_nat, eq_string, if◌then◌else◌, retain, length, contains,
}

abbrev pub max_pending : ℕ
max_pending = 256

abbrev pub u64_size : ℕ
u64_size = 18446744073709551616

-- A job by a number that stands for its closure.
pub data OneShotJob : Type 0 where
  plain cancellable : ℕ → OneShotJob

pub record OneShotEntry : Type 0 where
  pub generation : ℕ
  pub deadline : ℕ
  pub job : OneShotJob
  pub handle : ℕ

-- A token by a number that stands for its shared flag.
pub record RunningEntry : Type 0 where
  pub generation : ℕ
  pub token : Option ℕ

-- Where a worker stands: about to read its entry, in the `select!` with what it has read, or in the
-- job of a generation.
pub data Phase : Type 0 where
  ready : Phase
  waiting : ℕ → ℕ → Phase
  executing : ℕ → OneShotJob → Phase

pub record Worker : Type 0 where
  pub key : String
  pub phase : Phase
  pub aborted : Bool

pub record OneShotScheduler : Type 0 where
  pub jobs : Assoc String OneShotEntry
  pub running : Assoc String (List RunningEntry)
  pub next_generation : ℕ
  pub workers : Assoc ℕ Worker
  pub next_worker : ℕ
  pub next_token : ℕ
  pub cancelled : List ℕ
  pub fired : List ℕ

abbrev pub init : OneShotScheduler
init = record {
  jobs = [];
  running = [];
  next_generation = 1;
  workers = [];
  next_worker = 0;
  next_token = 0;
  cancelled = [];
  fired = [];
}

pub data Error : Type 0 where
  zero_delay limit_reached : Error

abbrev take_generation : OneShotScheduler → OneShotScheduler
take_generation s = record s { next_generation = (s.next_generation + 1) % u64_size }

-- `tauri::async_runtime::spawn` of a worker, and the entry that holds its handle.
spawn_entry : ℕ → String → ℕ → OneShotJob → OneShotScheduler → OneShotScheduler
spawn_entry generation key deadline job s = record s {
  workers = insert s.next_worker (record { key = key; phase = ready; aborted = false }) s.workers;
  next_worker = s.next_worker + 1;
  jobs =
      insert key
        (record { generation = generation; deadline = deadline; job = job; handle = s.next_worker })
        s.jobs;
}

place_entry :
    ℕ
    → String
    → ℕ
    → OneShotJob
    → Option OneShotEntry
    → OneShotScheduler
    → OneShotScheduler × Option Error
unfolding spawn_entry
place_entry generation key deadline job (some entry) s = (
  record s {
    jobs =
        insert key (record entry { generation = generation; deadline = deadline; job = job })
          s.jobs;
  },
  none,
)
place_entry generation key deadline job none s =
    if leb max_pending (length s.jobs)
    then (s, some limit_reached)
    else (spawn_entry generation key deadline job s, none)

unfoldable pub schedule_one_shot :
    ℕ → String → ℕ → OneShotJob → OneShotScheduler → OneShotScheduler × Option Error
unfolding place_entry
schedule_one_shot now key delay job s =
    if delay == 0
    then (s, some zero_delay)
    else place_entry s.next_generation key (now + delay) job (lookup key s.jobs) (take_generation s)

unfoldable pub schedule_once :
    ℕ → String → ℕ → ℕ → OneShotScheduler → OneShotScheduler × Option Error
unfolding schedule_one_shot
schedule_once now key delay run s = schedule_one_shot now key delay (plain run) s

unfoldable pub schedule_once_cancellable :
    ℕ → String → ℕ → ℕ → OneShotScheduler → OneShotScheduler × Option Error
unfolding schedule_one_shot
schedule_once_cancellable now key delay run s = schedule_one_shot now key delay (cancellable run) s

unfoldable pub debounce : ℕ → String → ℕ → ℕ → OneShotScheduler → OneShotScheduler × Option Error
unfolding schedule_once
debounce now key delay run s = schedule_once now key delay run s

-- `handle.abort()`: the worker ends at its next wait.
abort_found : ℕ → Option Worker → Assoc ℕ Worker → Assoc ℕ Worker
abort_found id none workers = workers
abort_found id (some w) workers = insert id (record w { aborted = true }) workers

unfoldable pub abort : ℕ → Assoc ℕ Worker → Assoc ℕ Worker
unfolding abort_found
abort id workers = abort_found id (lookup id workers) workers

-- The first half of `cancel`: the waiting task is taken out and its worker aborted.
cancel_found : String → Option OneShotEntry → OneShotScheduler → OneShotScheduler × Bool
cancel_found key none s = (s, false)
cancel_found key (some entry) s =
    (record s { jobs = remove key s.jobs; workers = abort entry.handle s.workers }, true)

unfoldable pub cancel_pending : String → OneShotScheduler → OneShotScheduler × Bool
unfolding cancel_found
cancel_pending key s = cancel_found key (lookup key s.jobs) s

abbrev pub tokens_of : List RunningEntry → List ℕ
tokens_of [] = []
tokens_of (r ∷ rs) = elim r.token [ none ↦ tokens_of rs | some t ↦ t ∷ tokens_of rs ]

abbrev pub entries_of : Option (List RunningEntry) → List RunningEntry
entries_of none = []
entries_of (some rs) = rs

abbrev pub is_empty {ℓ} : {A : Type ℓ} → List A → Bool
is_empty [] = true
is_empty (x ∷ xs) = false

-- The second half of `cancel`: the tokens of the running tasks are set.
unfoldable pub cancel_running : String → OneShotScheduler → OneShotScheduler × Bool
cancel_running key s =
    let tokens = tokens_of (entries_of (lookup key s.running)) in
    (record s { cancelled = tokens ++ s.cancelled }, if is_empty tokens then false else true)

unfoldable pub cancel : String → OneShotScheduler → OneShotScheduler × Bool
unfolding cancel_pending cancel_running
cancel key s =
    let (s', pending) = cancel_pending key s in
    let (s'', ran) = cancel_running key s' in (s'', if pending then true else ran)

unfoldable pub abort_all : Assoc String OneShotEntry → Assoc ℕ Worker → Assoc ℕ Worker
abort_all [] workers = workers
abort_all ((k, entry) ∷ m) workers = abort_all m (abort entry.handle workers)

all_tokens : Assoc String (List RunningEntry) → List ℕ
all_tokens [] = []
all_tokens ((k, rs) ∷ m) = tokens_of rs ++ all_tokens m

-- The first half of `cancel_all`: the waiting tasks are drained and their workers aborted.
unfoldable pub cancel_all_pending : OneShotScheduler → OneShotScheduler
cancel_all_pending s = record s { jobs = []; workers = abort_all s.jobs s.workers }

-- The second half of `cancel_all`: the tokens of all running tasks are set.
unfoldable pub cancel_all_running : OneShotScheduler → OneShotScheduler
unfolding all_tokens
cancel_all_running s = record s { cancelled = all_tokens s.running ++ s.cancelled }

unfoldable pub cancel_all : OneShotScheduler → OneShotScheduler
unfolding cancel_all_pending cancel_all_running
cancel_all s = cancel_all_running (cancel_all_pending s)

unfoldable pub is_scheduled : String → OneShotScheduler → Bool
is_scheduled key s = has_key key s.jobs

unfoldable pub is_running : String → OneShotScheduler → Bool
is_running key s = has_key key s.running

unfoldable pub is_cancelled : ℕ → OneShotScheduler → Bool
is_cancelled token s = contains s.cancelled token

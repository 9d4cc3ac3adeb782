-- ===== src/Manager/Generations.antt =====
-- The generations of src-tauri/src/core/manager/process.rs: which core is the one that is ready.
use clash_verge_buty.Prelude.{
  ℕ, ◌+◌, ◌%◌, ◌≤◌, ◌<◌, ◌≡◌, refl, sym, subst, Bool, true, false, ◌&&◌, ◌||◌, not, Option, none,
  some, List, ◌==◌, ◌!=◌, eq_nat, if◌then◌else◌, arith, Bool-cases, inl, inr, contains,
  contains-retain, retain, ltb,
}
use clash_verge_buty.Manager.{
  CoreManager, Progress, stopping_old, launching_service, confirming, publishing, Caller, by_run,
  by_recovery, handle_core_terminated, monitor_failed, schedule_core_recovery, end_recovery,
  u64_size,
}
use clash_verge_buty.Manager.Starting.{begin_start, fail_start, succeed_start}
use clash_verge_buty.Manager.Runs.{terminated}

abbrev pub is_child : Option ℕ → Bool
is_child none = false
is_child (some c) = true

-- The part of the state that matters here.
pub record Core : Type 0 where
  pub child : Bool
  pub service : Bool
  pub generation : ℕ
  pub active : ℕ
  pub ready : Bool
  pub listening : List ℕ
  pub monitored : List ℕ

abbrev pub core : CoreManager → Core
core s = record {
  child = is_child s.sidecar;
  service = s.use_service_mode;
  generation = s.generation;
  active = s.active_generation;
  ready = s.core_ready;
  listening = s.listening;
  monitored = s.monitored;
}

-- What the holder of the lock relies on while it waits.
abbrev pub held_ok : Core → Option Progress → Bool
held_ok c none = true
held_ok c (some (stopping_old g caller)) =
    g == c.generation
    && (ltb 0 g
        && c.active == g
        && (not c.ready && (not (contains c.listening g) && not (contains c.monitored g))))
held_ok c (some (launching_service g caller)) =
    g == c.generation
    && (ltb 0 g
        && c.active == g
        && (c.service
            && (not c.ready && (not (contains c.listening g) && not (contains c.monitored g)))))
held_ok c (some (confirming g caller)) =
    g == c.generation
    && (ltb 0 g
        && not c.ready
        && (not (contains c.monitored g) && (if c.active == g then c.child else c.active == 0)))
held_ok c (some (publishing g caller)) =
    g == c.generation
    && (ltb 0 g
        && not c.ready
        && (not (contains c.monitored g) && (if c.active == g then c.child else c.active == 0)))

pub record Inv (n : ℕ) (c : Core) (holder : Option Progress) : Type 0 where
  pub counted : c.generation ≤ n
  pub heard : (g : ℕ) → contains c.listening g ≡ true → g ≤ c.generation
  pub watched : (g : ℕ) → contains c.monitored g ≡ true → g ≤ c.generation
  pub held : held_ok c holder ≡ true
  pub current : c.ready ≡ true → ltb 0 c.active ≡ true → c.active ≡ c.generation
  pub manned : c.ready ≡ true → ltb 0 c.active ≡ true → (c.service || c.child) ≡ true

pub schedule-core :
    (s : CoreManager)
    → (core (schedule_core_recovery s) ≡ core s) × ((schedule_core_recovery s).holder ≡ s.holder)
unfolding schedule_core_recovery
schedule-core s = elim (Bool-cases s.recovery_scheduled) [
  | inl t ↦ (rw t refl, rw t refl)
  | inr n ↦ (rw n refl, rw n refl)
]

pub end_recovery-core :
    (s : CoreManager) → (core (end_recovery s) ≡ core s) × ((end_recovery s).holder ≡ s.holder)
unfolding end_recovery schedule_core_recovery
end_recovery-core s = elim (Bool-cases (s.desired_running && not s.core_ready)) [
  | inl t ↦ (rw t refl, rw t refl)
  | inr n ↦ (rw n refl, rw n refl)
]

pub fail_start-core :
    (caller : Caller) (s : CoreManager)
    → (core (fail_start caller s) ≡ core s) × ((fail_start caller s).holder ≡ none)
unfolding fail_start
fail_start-core by_recovery s = (refl, refl)
fail_start-core by_run s = elim (Bool-cases (s.desired_running && not s.core_ready)) [
  | inl t ↦ rw t (schedule-core (record s { holder = none }))
  | inr n ↦ (rw n refl, rw n refl)
]

pub succeed_start-core :
    (caller : Caller) (s : CoreManager)
    → (core (succeed_start caller s) ≡ core s) × ((succeed_start caller s).holder ≡ none)
unfolding succeed_start
succeed_start-core by_run s = (refl, refl)
succeed_start-core by_recovery s = end_recovery-core (record s { holder = none })

abbrev pub Holds : ℕ → CoreManager → Type 0
Holds n s = Inv n (core s) s.holder

-- After a retreat of the core nothing is ready.
pub idle-Inv :
    {n : ℕ} (c : Core)
    → c.generation ≤ n
    → ((g : ℕ) → contains c.listening g ≡ true → g ≤ c.generation)
    → ((g : ℕ) → contains c.monitored g ≡ true → g ≤ c.generation)
    → c.ready ≡ false
    → Inv n c none
idle-Inv c k l m r = record {
  counted = k;
  heard = l;
  watched = m;
  held = refl;
  current = λ q a. absurd (ground arith);
  manned = λ q a. absurd (ground arith);
}

pub carry :
    {n : ℕ} (t : CoreManager) (c : Core) (h : Option Progress)
    → (core t ≡ c) × (t.holder ≡ h)
    → Inv n c h
    → Holds n t
carry {n} t c h (e, k) x = subst (λ d. Inv n d t.holder) (sym e) (subst (λ j. Inv n c j) (sym k) x)

retain-heard :
    (g : ℕ) (c : Core)
    → ((h : ℕ) → contains c.listening h ≡ true → h ≤ c.generation)
    → (h : ℕ) → contains (retain (λ k. k != g) c.listening) h ≡ true
    → h ≤ c.generation
retain-heard g c l h m = l h (ground (arith, contains-retain (λ k. k != g) c.listening h))

-- A listener is done, of a generation that is not the active one.
unheard-Inv :
    {n : ℕ} (g : ℕ) (c : Core) (holder : Option Progress)
    → Inv n c holder
    → Inv n (record c { listening = retain (λ k. k != g) c.listening }) holder
unheard-Inv g c none x = record {
  counted = x.counted;
  heard = retain-heard g c x.heard;
  watched = x.watched;
  held = refl;
  current = x.current;
  manned = x.manned;
}
unheard-Inv g c (some (stopping_old k caller)) x = record {
  counted = x.counted;
  heard = retain-heard g c x.heard;
  watched = x.watched;
  held = ground (arith, x.held, contains-retain (λ k. k != g) c.listening k);
  current = x.current;
  manned = x.manned;
}
unheard-Inv g c (some (launching_service k caller)) x = record {
  counted = x.counted;
  heard = retain-heard g c x.heard;
  watched = x.watched;
  held = ground (arith, x.held, contains-retain (λ k. k != g) c.listening k);
  current = x.current;
  manned = x.manned;
}
unheard-Inv g c (some (confirming k caller)) x = record {
  counted = x.counted;
  heard = retain-heard g c x.heard;
  watched = x.watched;
  held = x.held;
  current = x.current;
  manned = x.manned;
}
unheard-Inv g c (some (publishing k caller)) x = record {
  counted = x.counted;
  heard = retain-heard g c x.heard;
  watched = x.watched;
  held = x.held;
  current = x.current;
  manned = x.manned;
}

-- The child of the active generation has ended.
ended-Inv :
    {n : ℕ} (g : ℕ) (c : Core) (holder : Option Progress)
    → Inv n c holder
    → contains c.listening g ≡ true
    → c.active ≡ g
    → Inv n
        (record c {
          child = false;
          active = 0;
          ready = false;
          listening = retain (λ k. k != g) c.listening;
        })
        holder
ended-Inv g c none x l a = idle-Inv _ x.counted (retain-heard g c x.heard) x.watched refl
ended-Inv g c (some (stopping_old k caller)) x l a = absurd (ground (arith, x.held))
ended-Inv g c (some (launching_service k caller)) x l a = absurd (ground (arith, x.held))
ended-Inv g c (some (confirming k caller)) x l a = record {
  counted = x.counted;
  heard = retain-heard g c x.heard;
  watched = x.watched;
  held = ground (arith, x.held);
  current = λ r k. absurd (ground arith);
  manned = λ r k. absurd (ground arith);
}
ended-Inv g c (some (publishing k caller)) x l a = record {
  counted = x.counted;
  heard = retain-heard g c x.heard;
  watched = x.watched;
  held = ground (arith, x.held);
  current = λ r k. absurd (ground arith);
  manned = λ r k. absurd (ground arith);
}

-- The service has failed a monitored generation for the third time.
given_up-Inv :
    {n : ℕ} (g : ℕ) (c : Core) (holder : Option Progress)
    → Inv n c holder
    → contains c.monitored g ≡ true
    → c.active ≡ g
    → Inv n (record c { active = 0; ready = false }) holder
given_up-Inv g c none x l a = idle-Inv _ x.counted x.heard x.watched refl
given_up-Inv g c (some (stopping_old k caller)) x l a = absurd (ground (arith, x.held))
given_up-Inv g c (some (launching_service k caller)) x l a = absurd (ground (arith, x.held))
given_up-Inv g c (some (confirming k caller)) x l a = record {
  counted = x.counted;
  heard = x.heard;
  watched = x.watched;
  held = ground (arith, x.held);
  current = λ r k. absurd (ground arith);
  manned = λ r k. absurd (ground arith);
}
given_up-Inv g c (some (publishing k caller)) x l a = record {
  counted = x.counted;
  heard = x.heard;
  watched = x.watched;
  held = ground (arith, x.held);
  current = λ r k. absurd (ground arith);
  manned = λ r k. absurd (ground arith);
}

pub either-Holds :
    {n : ℕ} (b : Bool) (s t : CoreManager) → Holds n s → Holds n t → Holds n (if b then s else t)
either-Holds true s t x y = x
either-Holds false s t x y = y

-- The lock is given back.
pub release : {n : ℕ} (c : Core) (holder : Option Progress) → Inv n c holder → Inv n c none
release c holder x = record {
  counted = x.counted;
  heard = x.heard;
  watched = x.watched;
  held = refl;
  current = x.current;
  manned = x.manned;
}

pub schedule-Holds : {n : ℕ} (s : CoreManager) → Holds n s → Holds n (schedule_core_recovery s)
schedule-Holds s x = carry (schedule_core_recovery s) (core s) s.holder (schedule-core s) x

pub end_recovery-Holds : {n : ℕ} (s : CoreManager) → Holds n s → Holds n (end_recovery s)
end_recovery-Holds s x = carry (end_recovery s) (core s) s.holder (end_recovery-core s) x

pub fail_start-Holds :
    {n : ℕ} (caller : Caller) (s : CoreManager)
    → Inv n (core s) none
    → Holds n (fail_start caller s)
fail_start-Holds caller s x = carry (fail_start caller s) (core s) none (fail_start-core caller s) x

pub succeed_start-Holds :
    {n : ℕ} (caller : Caller) (s : CoreManager)
    → Inv n (core s) none
    → Holds n (succeed_start caller s)
succeed_start-Holds caller s x =
    carry (succeed_start caller s) (core s) none (succeed_start-core caller s) x

pub terminated-Holds :
    {n : ℕ} (g : ℕ) (s : CoreManager)
    → contains s.listening g ≡ true
    → Holds n s
    → Holds n (terminated true g s)
unfolding terminated handle_core_terminated
terminated-Holds g s l x = elim (Bool-cases (s.active_generation == g)) [
  | inl t ↦
      let gone = ended-Inv g (core s) s.holder x l (ground arith) in
      let ended = record s {
        active_generation = 0;
        sidecar = none;
        core_ready = false;
        listening = retain (λ h. h != g) s.listening;
      } in
      rw t (
        either-Holds s.desired_running (schedule_core_recovery ended) ended
          (schedule-Holds ended gone) gone)
  | inr f ↦ rw f (unheard-Inv g (core s) s.holder x)
]

pub failed-Holds :
    {n : ℕ} (early : Bool) (g failures : ℕ) (s : CoreManager)
    → contains s.monitored g ≡ true
    → Holds n s
    → Holds n (monitor_failed early g failures s).0
unfolding monitor_failed
failed-Holds true g failures s l x = x
failed-Holds false g failures s l x = elim (Bool-cases (s.active_generation == g)) [
  | inl t ↦ rw t (
      schedule-Holds (record s { active_generation = 0; core_ready = false })
        (given_up-Inv g (core s) s.holder x l (ground arith)))
  | inr f ↦ rw f x
]

-- One more generation is allowed for.
pub widen : {n : ℕ} (c : Core) (holder : Option Progress) → Inv n c holder → Inv (n + 1) c holder
widen c holder x = record {
  counted = omega (arith, x.counted);
  heard = x.heard;
  watched = x.watched;
  held = x.held;
  current = x.current;
  manned = x.manned;
}

pub begin_start-Holds :
    {n : ℕ} (generated : Bool) (caller : Caller) (s : CoreManager)
    → n + 1 < u64_size
    → Holds n s
    → Holds (n + 1) (begin_start generated caller s)
unfolding begin_start
begin_start-Holds false caller s w x =
    fail_start-Holds caller s (widen (core s) none (release (core s) s.holder x))
begin_start-Holds {n} true caller s w x =
    let next : (s.generation + 1) % u64_size ≡ s.generation + 1 = omega (arith, x.counted, w) in
    record {
      counted = omega (arith, next, x.counted);
      heard = λ g m. ground (arith, next, x.heard g m);
      watched = λ g m. ground (arith, next, x.watched g m);
      held = ground (arith, next, x.heard (s.generation + 1), x.watched (s.generation + 1));
      current = λ r k. absurd (ground arith);
      manned = λ r k. absurd (ground arith);
    }

-- ===== src/Manager/Ready.antt =====
-- Recovery in src-tauri/src/core/manager/process.rs: a core that should run is not forgotten.
use clash_verge_buty.Prelude.{
  ℕ, ◌≡◌, refl, Bool, true, false, ◌&&◌, not, Option, none, some, List, [], ◌∷◌, ◌==◌, eq_nat,
  arith, Bool-cases, ltb, contains, ◌||◌, ◌+◌, Option-cases, inl, inr,
}
use clash_verge_buty.Manager.{
  CoreManager, Progress, stopping_old, launching_service, confirming, publishing, Caller, by_run,
  by_recovery, looping, sleeping, locking, starting, Recovery, init, handle_core_terminated,
  monitor_answered, monitor_failed, stop_core, schedule_core_recovery, end_recovery,
}
use clash_verge_buty.Manager.Starting.{
  begin_start, choose_mode, service_answered, readiness_answered, publish_ready, run_core,
  recover_core, recovery_loop, recovery_woken, fail_start, succeed_start,
}
use clash_verge_buty.Manager.Runs.{
  Event, runs, locks_run, locks_recovery, stops, chooses, service_answers, core_answers, publishes,
  terminates, monitors, recovers, step, run, held_step, free_recovery_step, lock_run, lock_recovery,
  lock_stop, terminated, monitored_step,
}

abbrev pub is_free : Option Progress → Bool
is_free none = true
is_free (some p) = false

abbrev caller_of : Progress → Caller
caller_of (stopping_old g caller) = caller
caller_of (launching_service g caller) = caller
caller_of (confirming g caller) = caller
caller_of (publishing g caller) = caller

abbrev is_recovery : Caller → Bool
is_recovery by_run = false
is_recovery by_recovery = true

abbrev pub held_by_recovery : Option Progress → Bool
held_by_recovery none = false
held_by_recovery (some p) = is_recovery (caller_of p)

abbrev pub is_task : Option Recovery → Bool
is_task none = false
is_task (some r) = true

abbrev pub is_starting : Option Recovery → Bool
is_starting none = false
is_starting (some looping) = false
is_starting (some sleeping) = false
is_starting (some locking) = false
is_starting (some starting) = true

pub record Inv (s : CoreManager) : Type 0 where
  pub flagged : s.recovery_scheduled ≡ is_task s.recovery
  pub recovering : held_by_recovery s.holder ≡ is_starting s.recovery
  pub remembered :
      s.desired_running ≡ true
      → s.core_ready ≡ false
      → is_free s.holder ≡ true
      → s.queued_runs ≡ 0
      → s.recovery_scheduled ≡ true

schedule-Inv :
    (s : CoreManager)
    → s.recovery_scheduled ≡ is_task s.recovery
    → held_by_recovery s.holder ≡ is_starting s.recovery
    → Inv (schedule_core_recovery s)
unfolding schedule_core_recovery
schedule-Inv s f r = elim (Bool-cases s.recovery_scheduled) [
  | inl t ↦
      rw t (record { flagged = ground arith; recovering = r; remembered = λ d n h q. ground arith })
  | inr n ↦ rw n (record {
    flagged = refl;
    recovering = elim (Option-cases s.recovery) [
      | inl e ↦ ground arith
      | inr (k, e) ↦ absurd (ground arith)
    ];
    remembered = λ d n h q. refl;
  })
]

end_recovery-Inv : (s : CoreManager) → held_by_recovery s.holder ≡ false → Inv (end_recovery s)
unfolding end_recovery schedule_core_recovery
end_recovery-Inv s h = elim (Bool-cases (s.desired_running && not s.core_ready)) [
  | inl t ↦ rw t (record { flagged = refl; recovering = h; remembered = λ d n h q. refl })
  | inr f ↦
      rw f
        (record { flagged = refl; recovering = h; remembered = λ d n h q. absurd (ground arith) })
]

terminated-Inv : (b : Bool) (g : ℕ) (s : CoreManager) → Inv s → Inv (terminated b g s)
unfolding terminated handle_core_terminated
terminated-Inv false g s x = x
terminated-Inv true g s x = elim (Bool-cases (s.active_generation == g)) [
  | inl t ↦ elim (Bool-cases s.desired_running) [
    | inl d ↦ rw (t, d) (schedule-Inv _ x.flagged x.recovering)
    | inr n ↦
        rw (t, n)
          (record {
            flagged = x.flagged;
            recovering = x.recovering;
            remembered = λ d r h q. absurd (ground arith);
          })
  ]
  | inr f ↦
      rw f (record { flagged = x.flagged; recovering = x.recovering; remembered = x.remembered })
]

failed-Inv :
    (early : Bool) (g failures : ℕ) (s : CoreManager)
    → Inv s
    → Inv (monitor_failed early g failures s).0
unfolding monitor_failed
failed-Inv true g failures s x = x
failed-Inv false g failures s x = elim (Bool-cases (s.active_generation == g)) [
  | inl t ↦ rw t (schedule-Inv _ x.flagged x.recovering)
  | inr f ↦ rw f x
]

monitored-Inv :
    (b : Bool) (g : ℕ) (ok : Bool) (failures : ℕ) (s : CoreManager)
    → Inv s
    → Inv (monitored_step b g ok failures s)
unfolding monitored_step monitor_answered
monitored-Inv false g ok failures s x = x
monitored-Inv true g true failures s x = x
monitored-Inv true g false failures s x = failed-Inv (ltb (failures + 1) 3) g failures s x

fail_start-Inv :
    (caller : Caller) (s : CoreManager)
    → s.recovery_scheduled ≡ is_task s.recovery
    → is_recovery caller ≡ is_starting s.recovery
    → Inv (fail_start caller s)
unfolding fail_start
fail_start-Inv by_run s f r = elim (Bool-cases (s.desired_running && not s.core_ready)) [
  | inl t ↦ rw t (schedule-Inv _ f r)
  | inr n ↦
      rw n (record { flagged = f; recovering = r; remembered = λ d k h q. absurd (ground arith) })
]
fail_start-Inv by_recovery s f r = elim (Option-cases s.recovery) [
  | inl e ↦ absurd (ground arith)
  | inr (k, e) ↦ record {
    flagged = ground arith;
    recovering = refl;
    remembered = λ d n h q. ground arith;
  }
]

succeed_start-Inv :
    (caller : Caller) (s : CoreManager)
    → s.recovery_scheduled ≡ is_task s.recovery
    → is_recovery caller ≡ is_starting s.recovery
    → s.core_ready ≡ true
    → Inv (succeed_start caller s)
unfolding succeed_start
succeed_start-Inv by_run s f r k = record {
  flagged = f;
  recovering = r;
  remembered = λ d n h q. absurd (ground arith);
}
succeed_start-Inv by_recovery s f r k = end_recovery-Inv (record s { holder = none }) refl

begin_start-Inv :
    (generated : Bool) (caller : Caller) (s : CoreManager)
    → s.recovery_scheduled ≡ is_task s.recovery
    → is_recovery caller ≡ is_starting s.recovery
    → Inv (begin_start generated caller s)
unfolding begin_start
begin_start-Inv false caller s f r = fail_start-Inv caller s f r
begin_start-Inv true caller s f r = record {
  flagged = f;
  recovering = r;
  remembered = λ d n h q. absurd (ground arith);
}

held-Inv :
    (e : Event) (holder : Option Progress) (s : CoreManager)
    → s.recovery_scheduled ≡ is_task s.recovery
    → held_by_recovery holder ≡ is_starting s.recovery
    → s.holder ≡ holder
    → Inv s
    → Inv (held_step e holder s)
unfolding held_step choose_mode service_answered readiness_answered publish_ready
held-Inv (chooses true spawned) (some (stopping_old g c)) s f r h x = record {
  flagged = f;
  recovering = r;
  remembered = λ d n k q. absurd (ground arith);
}
held-Inv (chooses false none) (some (stopping_old g c)) s f r h x =
    elim (Bool-cases (s.active_generation == g)) [
      | inl t ↦ rw t (fail_start-Inv c _ f r)
      | inr n ↦ rw n (fail_start-Inv c _ f r)
    ]
held-Inv (chooses false (some child)) (some (stopping_old g c)) s f r h x = record {
  flagged = f;
  recovering = r;
  remembered = λ d n k q. absurd (ground arith);
}
held-Inv (service_answers true) (some (launching_service g c)) s f r h x =
    succeed_start-Inv c _ f r refl
held-Inv (service_answers false) (some (launching_service g c)) s f r h x =
    elim (Bool-cases (s.active_generation == g)) [
      | inl t ↦ rw t (fail_start-Inv c _ f r)
      | inr n ↦ rw n (fail_start-Inv c _ f r)
    ]
held-Inv (core_answers true) (some (confirming g c)) s f r h x =
    elim (Bool-cases (s.active_generation == g)) [
      | inl t ↦
          rw t
            (record { flagged = f; recovering = r; remembered = λ d n k q. absurd (ground arith) })
      | inr n ↦ rw n (fail_start-Inv c _ f r)
    ]
held-Inv (core_answers false) (some (confirming g c)) s f r h x =
    elim (Bool-cases (s.active_generation == g)) [
      | inl t ↦ rw t (fail_start-Inv c _ f r)
      | inr n ↦ rw n (fail_start-Inv c _ f r)
    ]
held-Inv publishes (some (publishing g c)) s f r h x = succeed_start-Inv c _ f r refl
held-Inv e holder s f r h x = x

lock_run-Inv :
    (generated : Bool) (queued : ℕ) (holder : Option Progress) (s : CoreManager)
    → s.holder ≡ holder
    → Inv s
    → Inv (lock_run generated queued holder s)
unfolding lock_run
lock_run-Inv generated queued (some p) s h x = x
lock_run-Inv generated queued none s h x = elim (Bool-cases (queued == 0)) [
  | inl t ↦ rw t x
  | inr f ↦ rw f (begin_start-Inv generated by_run _ x.flagged (ground (arith, x.recovering)))
]

lock_recovery-Inv :
    (generated : Bool) (recovery : Option Recovery) (holder : Option Progress) (s : CoreManager)
    → s.recovery ≡ recovery
    → s.holder ≡ holder
    → Inv s
    → Inv (lock_recovery generated recovery holder s)
unfolding lock_recovery recover_core
lock_recovery-Inv generated (some locking) none s e h x =
    elim (Bool-cases (not s.desired_running || s.core_ready)) [
      | inl t ↦ rw t (end_recovery-Inv s (ground arith))
      | inr f ↦ rw f (
          begin_start-Inv generated by_recovery (record s { recovery = some starting })
            (ground (arith, x.flagged)) refl)
    ]
lock_recovery-Inv generated recovery holder s e h x = x

lock_stop-Inv : (holder : Option Progress) (s : CoreManager) → Inv s → Inv (lock_stop holder s)
unfolding lock_stop stop_core
lock_stop-Inv (some p) s x = x
lock_stop-Inv none s x = elim (Bool-cases s.use_service_mode) [
  | inl t ↦ rw t (record {
    flagged = x.flagged;
    recovering = x.recovering;
    remembered = λ d n k q. absurd (ground arith);
  })
  | inr f ↦ rw f (record {
    flagged = x.flagged;
    recovering = x.recovering;
    remembered = λ d n k q. absurd (ground arith);
  })
]

free_recovery-Inv :
    (recovery : Option Recovery) (s : CoreManager)
    → s.recovery ≡ recovery
    → Inv s
    → Inv (free_recovery_step recovery s)
unfolding free_recovery_step recovery_loop recovery_woken
free_recovery-Inv (some looping) s e x = elim (Bool-cases (s.desired_running && not s.core_ready)) [
  | inl t ↦ rw t (record {
    flagged = ground (arith, x.flagged);
    recovering = ground (arith, x.recovering);
    remembered = λ d n k q. ground (arith, x.flagged);
  })
  | inr f ↦ rw f (end_recovery-Inv s (ground (arith, x.recovering)))
]
free_recovery-Inv (some sleeping) s e x =
    elim (Bool-cases (not s.desired_running || s.core_ready)) [
      | inl t ↦ rw t (end_recovery-Inv s (ground (arith, x.recovering)))
      | inr f ↦ rw f (record {
        flagged = ground (arith, x.flagged);
        recovering = ground (arith, x.recovering);
        remembered = λ d n k q. ground (arith, x.flagged);
      })
    ]
free_recovery-Inv recovery s e x = x

step-Inv : (e : Event) (s : CoreManager) → Inv s → Inv (step e s)
unfolding step run_core
step-Inv runs s x = record {
  flagged = x.flagged;
  recovering = x.recovering;
  remembered = λ d n k q. absurd (ground arith);
}
step-Inv (locks_run generated) s x = lock_run-Inv generated s.queued_runs s.holder s refl x
step-Inv (locks_recovery generated) s x =
    lock_recovery-Inv generated s.recovery s.holder s refl refl x
step-Inv stops s x = lock_stop-Inv s.holder s x
step-Inv (chooses enable spawned) s x =
    held-Inv (chooses enable spawned) s.holder s x.flagged x.recovering refl x
step-Inv (service_answers ok) s x =
    held-Inv (service_answers ok) s.holder s x.flagged x.recovering refl x
step-Inv (core_answers ok) s x = held-Inv (core_answers ok) s.holder s x.flagged x.recovering refl x
step-Inv publishes s x = held-Inv publishes s.holder s x.flagged x.recovering refl x
step-Inv (terminates g) s x = terminated-Inv (contains s.listening g) g s x
step-Inv (monitors g ok failures) s x = monitored-Inv (contains s.monitored g) g ok failures s x
step-Inv recovers s x = free_recovery-Inv s.recovery s refl x

run-Inv : (es : List Event) (s : CoreManager) → Inv s → Inv (run es s)
unfolding run
run-Inv [] s x = x
run-Inv (e ∷ es) s x = run-Inv es (step e s) (step-Inv e s x)

-- A core that should run is not forgotten, however the starts, stops and recoveries of process.rs,
-- the ends of processes, the answers and the ticks interleave, in runs in which `upgrade_core` takes
-- no part: whenever the core should run, does not count as ready, and nobody starts it or has asked
-- to, a recovery is scheduled, and its task has not ended. (What a task does between two of its
-- waits is one step, but for the end of a start, which reads the active generation before it stores
-- the flag.)
pub run-recovers :
    (es : List Event)
    → (run es init).desired_running ≡ true
    → (run es init).core_ready ≡ false
    → is_free (run es init).holder ≡ true
    → (run es init).queued_runs ≡ 0
    → ((run es init).recovery_scheduled ≡ true) × (is_task (run es init).recovery ≡ true)
run-recovers es d n h q =
    let x = run-Inv es init (record {
      flagged = refl;
      recovering = refl;
      remembered = λ d n h q. absurd (ground arith);
    }) in
    let scheduled = x.remembered d n h q in (scheduled, ground (arith, x.flagged))

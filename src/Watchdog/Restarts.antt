-- ===== src/Watchdog/Restarts.antt =====
-- The limit on restarts that the GUI asks for, in src-tauri/watchdog/src/main.rs.
use clash_verge_buty.Prelude.Int.{ℤ, pos, eq_int}
use clash_verge_buty.Prelude.{
  ◌==◌, eq_nat, retain-append, retain-retain, append-nil, append_assoc, ◌⊎◌, ℕ, ◌+◌, ◌≤◌, ◌≡◌, refl,
  Bool, true, false, List, [], ◌∷◌, ◌++◌, arith, leb, length, retain, length-retain-le,
  length-append, if◌then◌else◌, ap, Bool-cases, inl, inr,
}
use clash_verge_buty.Watchdog.{
  Supervisor, start, Verdict, stop, launch, Outcome, exited, not_run, on_exit, on_failure,
  on_restart_request, retry_delay_secs, restart_delay_secs, restart_exit_code, is_recent,
  max_retries, restart_limit_per_window,
}

pub record IsValid (s : Supervisor) : Type 0 where
  pub retries_bounded : s.retries ≤ max_retries
  pub restarts_bounded : length s.restart_times ≤ restart_limit_per_window

abbrev pub VerdictHolds : (Supervisor → Type 0) → Verdict → Type 0
VerdictHolds P (stop c) = Unit
VerdictHolds P (launch d s) = P s

-- Whatever the outcome of a run, and whenever it comes, the supervisor goes on with at most three
-- retries counted and at most five restarts remembered, if it did before.
pub on_exit-IsValid :
    (now : ℕ) (o : Outcome) (s : Supervisor) → IsValid s → VerdictHolds IsValid (on_exit now o s)
unfolding on_exit
on_exit-IsValid now (exited c) s v = ground (
  arith,
  length-append (retain (is_recent now) s.restart_times) (now ∷ []),
  length-retain-le (is_recent now) s.restart_times,
)
on_exit-IsValid now not_run s v = ground arith

abbrev pub is_request : Outcome → Bool
is_request (exited c) = if c == pos 0 then false else c == restart_exit_code
is_request not_run = false

-- The times at which the watchdog granted a restart that the GUI had asked for.
pub granted : Supervisor → List (ℕ × Outcome) → List ℕ
granted s [] = []
granted s ((now, o) ∷ rest) = elim (on_exit now o s) [
  | stop c ↦ []
  | launch d s' ↦ if is_request o then now ∷ granted s' rest else granted s' rest
]

-- Times do not go back, from `first` to `last`.
abbrev pub Ordered : ℕ → List (ℕ × Outcome) → ℕ → Type 0
Ordered first [] last = first ≤ last
Ordered first ((t, o) ∷ rest) last = (first ≤ t) × Ordered t rest last

Ordered-le : (first last : ℕ) (es : List (ℕ × Outcome)) → Ordered first es last → first ≤ last
Ordered-le first last [] h = h
Ordered-le first last ((t, o) ∷ rest) h = omega (arith, h.0, Ordered-le t last rest h.1)

-- What one round does to the times.
abbrev Round : ℕ → Outcome → Supervisor → Type 0
Round now o s =
    ((c : ℤ) × (on_exit now o s ≡ stop c))
    ⊎ ((d : ℕ) × (s' : Supervisor) × (on_exit now o s ≡ launch d s')
        × (is_request o ≡ true)
        × (s'.restart_times ≡ retain (is_recent now) s.restart_times ++ now ∷ []))
    ⊎ ((d : ℕ) × (s' : Supervisor) × (on_exit now o s ≡ launch d s')
        × (is_request o ≡ false)
        × (s'.restart_times ≡ s.restart_times))

failure-Round :
    (now : ℕ) (c : ℤ) (s : Supervisor)
    → ((c' : ℤ) × (on_failure c s ≡ stop c'))
      ⊎ ((d : ℕ) × (s' : Supervisor) × (on_failure c s ≡ launch d s')
          × (s'.restart_times ≡ s.restart_times))
unfolding on_failure
failure-Round now c s = elim (Bool-cases (s.retries == max_retries)) [
  | inl e ↦ inl (c, rw e)
  | inr e ↦ inr (retry_delay_secs, record s { retries = s.retries + 1 }, rw e, refl)
]

request-Round :
    (now : ℕ) (s : Supervisor)
    → ((c : ℤ) × (on_restart_request now s ≡ stop c))
      ⊎ ((d : ℕ) × (s' : Supervisor) × (on_restart_request now s ≡ launch d s')
          × (s'.restart_times ≡ retain (is_recent now) s.restart_times ++ now ∷ []))
unfolding on_restart_request
request-Round now s =
    let recent = retain (is_recent now) s.restart_times in
    elim (Bool-cases (leb restart_limit_per_window (length recent))) [
      | inl e ↦ inl (restart_exit_code, rw e)
      | inr e ↦ inr (
        restart_delay_secs,
        record { retries = 0; restart_times = recent ++ now ∷ [] },
        rw e,
        refl,
      )
    ]

on_exit-Round : (now : ℕ) (o : Outcome) (s : Supervisor) → Round now o s
unfolding on_exit
on_exit-Round now not_run s = elim (failure-Round now (pos 1) s) [
  | inl stopped ↦ inl stopped
  | inr (d, s', e, times) ↦ inr (inr (d, s', e, refl, times))
]
on_exit-Round now (exited c) s = elim (Bool-cases (c == pos 0)) [
  | inl zero_code ↦ inl (pos 0, rw zero_code)
  | inr other ↦ elim (Bool-cases (c == restart_exit_code)) [
    | inl asked ↦ elim (request-Round now s) [
      | inl (c', e) ↦ inl (c', rw (other, asked) e)
      | inr (d, s', e, times) ↦ inr (inl (d, s', rw (other, asked) e, rw (other, asked), times))
    ]
    | inr failed ↦ elim (failure-Round now c s) [
      | inl (c', e) ↦ inl (c', rw (other, failed) e)
      | inr (d, s', e, times) ↦ inr (inr (d, s', rw (other, failed) e, rw (other, failed), times))
    ]
  ]
]

-- The supervisor's list agrees with the history on what is recent, now and later.
abbrev Tracks : ℕ → List ℕ → List ℕ → Type 0
Tracks first times history =
    (now : ℕ) → first ≤ now → retain (is_recent now) times ≡ retain (is_recent now) history

is_recent_mono : (now later t : ℕ) → now ≤ later → is_recent later t ≡ true → is_recent now t ≡ true
is_recent_mono now later t h e = ground arith

Tracks-grant :
    (first now : ℕ) (times history : List ℕ)
    → first ≤ now
    → Tracks first times history
    → Tracks now (retain (is_recent now) times ++ now ∷ []) (history ++ now ∷ [])
Tracks-grant first now times history h tracks later g = rw (
  retain-append (is_recent later) (retain (is_recent now) times) (now ∷ []),
  retain-append (is_recent later) history (now ∷ []),
  retain-retain (is_recent later) (is_recent now) times (λ t. is_recent_mono now later t g),
  tracks later (omega arith),
)

granted_of_stop :
    (now : ℕ) (o : Outcome) (s : Supervisor) (es : List (ℕ × Outcome)) {c : ℤ}
    → on_exit now o s ≡ stop c
    → granted s ((now, o) ∷ es) ≡ []
unfolding granted
granted_of_stop now o s es e = ground arith

granted_of_launch :
    (now : ℕ) (o : Outcome) (s : Supervisor) (es : List (ℕ × Outcome)) {d : ℕ} {s' : Supervisor}
    → on_exit now o s ≡ launch d s'
    → granted s ((now, o) ∷ es) ≡ (if is_request o then now ∷ granted s' es else granted s' es)
unfolding granted
granted_of_launch now o s es e = ground arith

recent_bounded :
    (s : Supervisor) (first last : ℕ) (history : List ℕ)
    → IsValid s
    → Tracks first s.restart_times history
    → first ≤ last
    → length (retain (is_recent last) history) ≤ restart_limit_per_window
recent_bounded s first last history v tracks h = omega (
  arith,
  ap length (tracks last h),
  length-retain-le (is_recent last) s.restart_times,
  v.restarts_bounded,
)

restart_rate_from :
    (es : List (ℕ × Outcome)) (s : Supervisor) (first last : ℕ) (history : List ℕ)
    → IsValid s
    → Tracks first s.restart_times history
    → Ordered first es last
    → length (retain (is_recent last) (history ++ granted s es)) ≤ restart_limit_per_window
unfolding granted
restart_rate_from [] s first last history v tracks h =
    rw append-nil (recent_bounded s first last history v tracks h)
restart_rate_from ((now, o) ∷ es) s first last history v tracks h = elim (on_exit-Round now o s) [
  | inl (c, e) ↦
      rw (granted_of_stop now o s es e, append-nil)
        (recent_bounded s first last history v tracks
          (omega (arith, h.0, Ordered-le now last es h.1)))
  | inr (inl (d, s', e, asked, times)) ↦
      rw (granted_of_launch now o s es e, asked)
        (rw append_assoc at (
          restart_rate_from es s' now last (history ++ now ∷ [])
            (rw e at (on_exit-IsValid now o s v))
            (rw times (Tracks-grant first now s.restart_times history h.0 tracks)) h.1))
  | inr (inr (d, s', e, other, times)) ↦
      rw (granted_of_launch now o s es e, other)
        (restart_rate_from es s' now last history (rw e at (on_exit-IsValid now o s v))
          (rw times (λ later g. tracks later (omega (arith, h.0)))) h.1)
]

-- However the GUI ends and however often it asks to be restarted, at no time have more than five
-- of its requests been granted within the last sixty seconds. (Times do not go back.)
pub granted-rate :
    (es : List (ℕ × Outcome)) (last : ℕ)
    → Ordered 0 es last
    → length (retain (is_recent last) (granted start es)) ≤ restart_limit_per_window
granted-rate es last h = restart_rate_from es start 0 last [] (omega arith) (λ now g. refl) h

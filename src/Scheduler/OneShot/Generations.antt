-- ===== src/Scheduler/OneShot/Generations.antt =====
-- The generations of src-tauri/src/core/scheduler/one_shot.rs: each fires once at most, and one that
-- was superseded or cancelled never fires.
use clash_verge_buty.Prelude.Assoc.{lookup, insert, remove, lookup-insert, lookup-remove}
use clash_verge_buty.Prelude.{
  ℕ, ◌+◌, ◌%◌, ◌≤◌, ◌<◌, ◌≡◌, ◌≢◌, String, Bool, true, false, not, ◌&&◌, some, List, [], ◌∷◌, ◌⊎◌,
  inl, inr, arith, ◌==◌, eq_nat, eq_string, length, Bool-cases, contains, eq_iff,
}
use clash_verge_buty.Scheduler.OneShot.{OneShotEntry, u64_size, max_pending}
use clash_verge_buty.Scheduler.OneShot.Entries.{
  Jobs, Core, Change, same, wasted, placed, dropped, drained, fires,
}

-- No two elements are equal.
abbrev pub distinct : List ℕ → Bool
distinct [] = true
distinct (x ∷ xs) = not (contains xs x) && distinct xs

-- The waiting tasks' generations have been taken, have not fired, and belong to one key each; what
-- has fired has been taken, and has fired once; and there are at most as many tasks as allowed.
pub record Inv (c : Core) : Type 0 where
  pub below : (k : String) (e : OneShotEntry) → lookup k c.jobs ≡ some e → e.generation < c.next
  pub unfired :
      (k : String) (e : OneShotEntry)
      → lookup k c.jobs ≡ some e
      → contains c.fired e.generation ≡ false
  pub single :
      (k j : String) (e f : OneShotEntry)
      → lookup k c.jobs ≡ some e
      → lookup j c.jobs ≡ some f
      → e.generation ≡ f.generation
      → k ≡ j
  pub fired_below : (g : ℕ) → contains c.fired g ≡ true → g < c.next
  pub once : distinct c.fired ≡ true
  pub limited : length c.jobs ≤ max_pending

-- A generation that was taken, is not waiting, and has not fired.
pub record Dead (g : ℕ) (c : Core) : Type 0 where
  pub taken : g < c.next
  pub gone : (k : String) (e : OneShotEntry) → lookup k c.jobs ≡ some e → e.generation ≢ g
  pub silent : contains c.fired g ≡ false

-- The counter does not wrap at the next call.
abbrev pub HasRoom : Core → Type 0
HasRoom c = c.next + 1 < u64_size

pub next_lem : (n : ℕ) → n + 1 < u64_size → (n + 1) % u64_size ≡ n + 1
next_lem n h = omega arith

pub lookup-placed :
    (key j : String) (entry f : OneShotEntry) (m : Jobs)
    → lookup j (insert key entry m) ≡ some f
    → ((key ≡ j) × (f ≡ entry)) ⊎ ((key ≢ j) × (lookup j m ≡ some f))
lookup-placed key j entry f m h = elim (Bool-cases (key == j)) [
  | inl t ↦ inl (ground (arith, eq_iff key j), ground (arith, lookup-insert key j entry m))
  | inr n ↦ inr (ground (arith, eq_iff key j), ground (arith, lookup-insert key j entry m))
]

pub lookup-dropped :
    (key j : String) (f : OneShotEntry) (m : Jobs)
    → lookup j (remove key m) ≡ some f
    → (key ≢ j) × (lookup j m ≡ some f)
lookup-dropped key j f m h =
    (ground (arith, eq_iff key j, lookup-remove key j m), ground (arith, lookup-remove key j m))

pub lookup-empty : (j : String) (f : OneShotEntry) → lookup j [] ≡ some f → ⊥
unfolding lookup
lookup-empty j f h = cc

pub Change-Dead : (g : ℕ) (c d : Core) → Change c d → HasRoom c → Dead g c → Dead g d
Change-Dead g c d same r x = x
Change-Dead g c d wasted r x = record {
  taken = omega (arith, x.taken, next_lem c.next r);
  gone = x.gone;
  silent = x.silent;
}
Change-Dead g c d (placed key entry e room) r x = record {
  taken = omega (arith, x.taken, next_lem c.next r);
  gone = λ k f h. elim (lookup-placed key k entry f c.jobs h) [
    | inl (q, p) ↦ ground (arith, x.taken)
    | inr (q, p) ↦ x.gone k f p
  ];
  silent = x.silent;
}
Change-Dead g c d (dropped key) r x = record {
  taken = x.taken;
  gone = λ k f h. x.gone k f (lookup-dropped key k f c.jobs h).1;
  silent = x.silent;
}
Change-Dead g c d drained r x = record {
  taken = x.taken;
  gone = λ k f h. absurd (lookup-empty k f h);
  silent = x.silent;
}
Change-Dead g c d (fires key entry e) r x = record {
  taken = x.taken;
  gone = λ k f h. x.gone k f (lookup-dropped key k f c.jobs h).1;
  silent = ground (arith, x.silent, x.gone key entry e);
}

-- ===== src/Config/Draft.antt =====
-- config/draft.rs: a configuration with an uncommitted draft. A mutable reference that a method
-- hands out is an update by the function that its holder applies.
use clash_verge_buty.Prelude.{◌≡◌, Option, none, some, List, [], ◌∷◌, arith}

pub record Draft {ℓ} (T : Type ℓ) : Type ℓ where
  pub committed : T
  pub pending : Option T

module _ {ℓ} {T : Type ℓ} where
  unfoldable pub from : T → Draft T
  from t = record { committed = t; pending = none }

  unfoldable pub read_data : Draft T → T
  read_data d = d.committed

  latest_of : T → Option T → T
  latest_of t none = t
  latest_of t (some p) = p

  unfoldable pub latest : Draft T → T
  unfolding latest_of
  latest d = latest_of d.committed d.pending

  -- A write through the reference that `latest` returns.
  unfoldable pub update_latest : (T → T) → Draft T → Draft T
  update_latest f d = elim d.pending [
    | none ↦ record d { committed = f d.committed }
    | some p ↦ record d { pending = some (f p) }
  ]

  -- `draft` makes the draft when there is none.
  unfoldable pub draft : Draft T → Draft T
  unfolding latest_of
  draft d = record d { pending = some (latest_of d.committed d.pending) }

  -- A write through the reference that `draft` returns.
  unfoldable pub update_draft : (T → T) → Draft T → Draft T
  unfolding latest_of
  update_draft f d = record d { pending = some (f (latest_of d.committed d.pending)) }

  unfoldable pub apply : Draft T → Draft T × Option T
  apply d = elim d.pending [
    | none ↦ (d, none)
    | some p ↦ (record { committed = p; pending = none }, some d.committed)
  ]

  unfoldable pub discard : Draft T → Draft T × Option T
  discard d = (record d { pending = none }, d.pending)

  -- Several writes to the draft, the first at the head.
  abbrev pub edit_all : List (T → T) → Draft T → Draft T
  edit_all [] d = d
  edit_all (f ∷ fs) d = edit_all fs (update_draft f d)

  abbrev pub run_all : List (T → T) → T → T
  run_all [] t = t
  run_all (f ∷ fs) t = run_all fs (f t)

  edit_all_lem :
      (fs : List (T → T)) (d : Draft T) (p : T)
      → d.pending ≡ some p
      → edit_all fs d ≡ record { committed = d.committed; pending = some (run_all fs p) }
  unfolding update_draft
  edit_all_lem [] d p h = ground arith
  edit_all_lem (f ∷ fs) d p h = ground (arith, edit_all_lem fs (update_draft f d) (f p))

  -- A draft is a transaction: after one or more writes to it the committed value is what it was
  -- and `latest` shows all of them; `apply` commits them all at once, returning the old value, and
  -- `discard` restores the committed value and drops them all.
  pub draft_transaction :
      (f : T → T) (fs : List (T → T)) (d : Draft T)
      → let e = edit_all (f ∷ fs) d in
        let written = run_all (f ∷ fs) (latest d) in
        (read_data e ≡ read_data d)
        × (latest e ≡ written)
        × (apply e ≡ (from written, some (read_data d)))
        × (discard e ≡ (from (read_data d), some written))
  unfolding latest read_data apply discard from update_draft
  draft_transaction f fs d =
      ground (arith, edit_all_lem fs (update_draft f d) (f (latest_of d.committed d.pending)))

  -- Without a draft, `apply` and `discard` change nothing and say so, and a write through `latest`
  -- goes to the committed value.
  pub settled :
      (d : Draft T) (f : T → T)
      → d.pending ≡ none
      → (apply d ≡ (d, none)) × (discard d ≡ (d, none)) × (update_latest f d ≡ from (f d.committed))
  unfolding apply discard update_latest from
  settled d f h = ground arith

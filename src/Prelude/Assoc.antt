-- ===== src/Prelude/Assoc.antt =====
-- The program's maps (`HashMap` and the like) as association lists, with their laws.
use Prim.Native.Nat.{◌+◌, ◌≤◌}
use mathlib.Core.Path.{◌≡◌, refl}
use mathlib.Core.Bool.{Bool, true, false}
use mathlib.Core.List.{List, [], ◌∷◌}
use mathlib.Core.Option.{Option, none, some}
use native.Mathlib.Omega.{arith}
use clash_verge_buty.Prelude.Tests.{if◌then◌else◌, Eq, ◌==◌}
use clash_verge_buty.Prelude.Lists.{length}

abbrev pub Assoc {ℓ κ} : Type ℓ → Type κ → Type (ℓ ⊔ κ)
Assoc K V = List (K × V)

module _ {ℓ κ} {K : Type ℓ} {V : Type κ} ⦃e : Eq K⦄ where
  unfoldable pub lookup : K → Assoc K V → Option V
  lookup key [] = none
  lookup key ((k, x) ∷ rest) = if k == key then some x else lookup key rest

  -- A known key keeps its place; a new one goes to the end.
  unfoldable pub insert : K → V → Assoc K V → Assoc K V
  insert key x [] = (key, x) ∷ []
  insert key x ((k, old) ∷ more) =
      let tail = insert key x more in if k == key then (k, x) ∷ more else (k, old) ∷ tail

  unfoldable pub remove : K → Assoc K V → Assoc K V
  remove k [] = []
  remove k ((j, w) ∷ m) = let rest = remove k m in if j == k then rest else (j, w) ∷ rest

  abbrev pub has_key : K → Assoc K V → Bool
  has_key k m = elim (lookup k m) [ none ↦ false | some v ↦ true ]

  pub lookup-insert :
      (put key : K) (x : V) (m : Assoc K V)
      → lookup key (insert put x m) ≡ (if put == key then some x else lookup key m)
  unfolding insert lookup
  lookup-insert put key x [] = refl
  lookup-insert put key x ((k, old) ∷ more) =
      ground
        (arith, lookup-insert put key x more, e.eqb_iff put key, e.eqb_iff k put, e.eqb_iff k key)

  pub lookup-remove :
      (k j : K) (m : Assoc K V) → lookup j (remove k m) ≡ (if k == j then none else lookup j m)
  unfolding lookup remove
  lookup-remove k j [] = ground arith
  lookup-remove k j ((i, w) ∷ m) =
      ground (arith, e.eqb_iff i k, e.eqb_iff i j, e.eqb_iff k j, lookup-remove k j m)

  pub length-insert_known :
      (k : K) (v w : V) (m : Assoc K V) → lookup k m ≡ some w → length (insert k v m) ≡ length m
  unfolding lookup insert
  length-insert_known k v w [] h = cc
  length-insert_known k v w ((i, u) ∷ m) h = ground (arith, length-insert_known k v w m)

  pub length-insert-le : (k : K) (v : V) (m : Assoc K V) → length (insert k v m) ≤ length m + 1
  unfolding insert
  length-insert-le k v [] = omega arith
  length-insert-le k v ((i, u) ∷ m) = ground (arith, length-insert-le k v m)

  pub length-remove-le : (k : K) (m : Assoc K V) → length (remove k m) ≤ length m
  unfolding remove
  length-remove-le k [] = omega arith
  length-remove-le k ((i, u) ∷ m) = ground (arith, length-remove-le k m)

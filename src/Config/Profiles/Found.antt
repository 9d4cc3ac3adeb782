-- ===== src/Config/Profiles/Found.antt =====
-- Lemmas on the searches of Config/Profiles/Lookup.antt.
use clash_verge_buty.Config.Profiles.Item.{PrfItem}
use clash_verge_buty.Config.Profiles.Lookup.{
  has_uid, find_item, modify_first, first_index, last_index, last_index_from, remove_at, insert_at,
}
use clash_verge_buty.Prelude.{
  ℕ, zero, suc, ◌+◌, ◌≤◌, ◌<◌, ◌≡◌, refl, ap, ◌↔◌, String, true, false, Option, none, some, List,
  [], ◌∷◌, ◌++◌, arith, ◌==◌, eq_string, eq_option, if◌then◌else◌, length, Bool-cases, inl, inr,
  ◌⊎◌, Eq, eq_iff, Option-cases, get_elem?,
}
use mathlib.Core.Option

pub has_uid_iff : (uid : String) (x : PrfItem) → (has_uid uid x ≡ true) ↔ (x.uid ≡ some uid)
has_uid_iff uid x = Eq.eqb_iff eq_option x.uid (some uid)

-- Changing the first item with a uid, by a function that keeps uids, changes what is found under
-- that uid and nothing else.
pub find_item-modify_first :
    (uid j : String) (f : PrfItem → PrfItem) (xs : List PrfItem) {ys : List PrfItem}
    → ((x : PrfItem) → (f x).uid ≡ x.uid)
    → modify_first uid f xs ≡ some ys
    → find_item j ys ≡ (if j == uid then Option.map f (find_item j xs) else find_item j xs)
unfolding modify_first
find_item-modify_first uid j f [] keeps h = cc
find_item-modify_first uid j f (x ∷ xs) keeps h = elim (Option-cases (modify_first uid f xs)) [
  | inl e ↦
      ground (arith, keeps x, has_uid_iff uid x, has_uid_iff j x, has_uid_iff j (f x), eq_iff j uid)
  | inr (zs, e) ↦ ground (
    arith,
    keeps x,
    has_uid_iff uid x,
    has_uid_iff j x,
    has_uid_iff j (f x),
    eq_iff j uid,
    find_item-modify_first uid j f xs {ys = zs} keeps e,
  )
]

-- An item with the uid is there for both loops or for neither.
pub modify_first-finds :
    (uid : String) (f : PrfItem → PrfItem) (xs : List PrfItem)
    → ((modify_first uid f xs ≡ none) × (find_item uid xs ≡ none))
      ⊎ ((ys : List PrfItem) × (x : PrfItem) × (modify_first uid f xs ≡ some ys)
          × (find_item uid xs ≡ some x))
unfolding modify_first
modify_first-finds uid f [] = inl (refl, refl)
modify_first-finds uid f (x ∷ xs) = elim (Bool-cases (has_uid uid x)) [
  | inl hit ↦ inr (f x ∷ xs, x, rw hit, rw hit)
  | inr miss ↦ elim (modify_first-finds uid f xs) [
    | inl (a, b) ↦ inl (rw (miss, a), rw miss b)
    | inr (ys, y, a, b) ↦ inr (x ∷ ys, y, rw (miss, a), rw miss b)
  ]
]

pub length-modify_first :
    (uid : String) (f : PrfItem → PrfItem) (xs : List PrfItem) {ys : List PrfItem}
    → modify_first uid f xs ≡ some ys
    → length ys ≡ length xs
unfolding modify_first
length-modify_first uid f [] h = cc
length-modify_first uid f (x ∷ xs) h = elim (Option-cases (modify_first uid f xs)) [
  | inl e ↦ ground arith
  | inr (zs, e) ↦ ground (arith, length-modify_first uid f xs {ys = zs} e)
]

-- `first_index` gives the place of what `find_item` finds, and removing it leaves every other uid.
pub first_index-removes :
    (uid : String) (xs : List PrfItem)
    → ((first_index uid xs ≡ none) × (find_item uid xs ≡ none))
      ⊎ ((i : ℕ) × (x : PrfItem) × (ys : List PrfItem) × (first_index uid xs ≡ some i)
          × (find_item uid xs ≡ some x)
          × (remove_at i xs ≡ some (x, ys)))
unfolding first_index remove_at
first_index-removes uid [] = inl (refl, refl)
first_index-removes uid (x ∷ xs) = elim (Bool-cases (has_uid uid x)) [
  | inl hit ↦ inr (0, x, xs, rw hit, rw hit, refl)
  | inr miss ↦ elim (first_index-removes uid xs) [
    | inl (a, b) ↦ inl (rw (miss, a), rw miss b)
    | inr (i, y, ys, a, b, c) ↦ inr (suc i, y, x ∷ ys, rw (miss, a), rw miss b, rw c)
  ]
]

-- Removing an item leaves what is found under every uid but its own.
pub find_item-remove_at :
    (j : String) (i : ℕ) (xs : List PrfItem) {x : PrfItem} {ys : List PrfItem}
    → remove_at i xs ≡ some (x, ys)
    → has_uid j x ≡ false
    → find_item j ys ≡ find_item j xs
unfolding remove_at
find_item-remove_at j i [] h k = cc
find_item-remove_at j zero (x ∷ xs) h k = ground arith
find_item-remove_at j (suc i) (x ∷ xs) h k = elim (Option-cases (remove_at i xs)) [
  | inl e ↦ ground arith
  | inr ((y, zs), e) ↦ ground (arith, find_item-remove_at j i xs {x = y} {ys = zs} e)
]

pub find_item-append :
    (j : String) (xs : List PrfItem) (x : PrfItem)
    → find_item j (xs ++ x ∷ [])
      ≡ (elim (find_item j xs) [ none ↦ if has_uid j x then some x else none | some y ↦ some y ])
find_item-append j [] x = ground arith
find_item-append j (y ∷ xs) x = ground (arith, find_item-append j xs x)

-- The index that the loop of `reorder` ends with is one of the list, and carries the uid.
abbrev IndexOf : String → ℕ → List PrfItem → Option ℕ → Type 0
IndexOf uid i xs none = Unit
IndexOf uid i xs (some n) =
    (k : ℕ) × (x : PrfItem) × (n ≡ i + k) × (get_elem? xs k ≡ some x) × (has_uid uid x ≡ true)

IndexOf-next :
    (uid : String) (i : ℕ) (x : PrfItem) (xs : List PrfItem) (o : Option ℕ)
    → IndexOf uid (i + 1) xs o
    → IndexOf uid i (x ∷ xs) o
IndexOf-next uid i x xs none at = tt
IndexOf-next uid i x xs (some n) (k, y, e, g, u) = (suc k, y, omega arith, g, u)

last_index_from_lem :
    (uid : String) (i : ℕ) (found : Option ℕ) (xs : List PrfItem)
    → (last_index_from uid i found xs ≡ found) ⊎ IndexOf uid i xs (last_index_from uid i found xs)
unfolding last_index_from
last_index_from_lem uid i found [] = inl refl
last_index_from_lem uid i found (x ∷ xs) = elim (Bool-cases (has_uid uid x)) [
  | inl hit ↦ rw hit (elim (last_index_from_lem uid (i + 1) (some i) xs) [
    | inl e ↦ inr (rw e (0, x, omega arith, refl, hit))
    | inr at ↦ inr (IndexOf-next uid i x xs (last_index_from uid (i + 1) (some i) xs) at)
  ])
  | inr miss ↦ rw miss (elim (last_index_from_lem uid (i + 1) found xs) [
    | inl e ↦ inl e
    | inr at ↦ inr (IndexOf-next uid i x xs (last_index_from uid (i + 1) found xs) at)
  ])
]

pub last_index_lem :
    (uid : String) (xs : List PrfItem) {n : ℕ}
    → last_index uid xs ≡ some n
    → (x : PrfItem) × (get_elem? xs n ≡ some x) × (has_uid uid x ≡ true)
unfolding last_index
last_index_lem uid xs {n} h = elim (last_index_from_lem uid 0 none xs) [
  | inl e ↦ cc
  | inr at ↦ found (rw h at at)
]
  where
    found :
        IndexOf uid 0 xs (some n)
        → (x : PrfItem) × (get_elem? xs n ≡ some x) × (has_uid uid x ≡ true)
    found (k, x, e, g, u) = (x, ground arith, u)

module _ {ℓ} {A : Type ℓ} where
  -- An element that is there can be removed, and put in again at any place that the list has.
  pub remove_at-total :
      (i : ℕ) (xs : List A) {x : A}
      → get_elem? xs i ≡ some x
      → (rest : List A) × (remove_at i xs ≡ some (x, rest)) × (length xs ≡ suc (length rest))
  unfolding remove_at
  remove_at-total i [] h = cc
  remove_at-total zero (y ∷ xs) h = (xs, ground arith, refl)
  remove_at-total (suc i) (y ∷ xs) h =
      let (rest, e, l) = remove_at-total i xs h in (y ∷ rest, rw e, ap suc l)

  pub insert_at-total :
      (i : ℕ) (x : A) (rest : List A)
      → i ≤ length rest
      → (ys : List A) × (insert_at i x rest ≡ some ys) × (remove_at i ys ≡ some (x, rest))
  unfolding remove_at insert_at
  insert_at-total zero x rest h = (x ∷ rest, refl, refl)
  insert_at-total (suc i) x [] h = absurd (omega arith)
  insert_at-total (suc i) x (y ∷ rest) h =
      let (ys, e, r) = insert_at-total i x rest (omega arith) in (y ∷ ys, rw e, rw r)

  pub get_elem?-lt : (i : ℕ) (xs : List A) {x : A} → get_elem? xs i ≡ some x → i < length xs
  get_elem?-lt i [] h = cc
  get_elem?-lt zero (y ∷ xs) h = omega arith
  get_elem?-lt (suc i) (y ∷ xs) h = omega (arith, get_elem?-lt i xs h)

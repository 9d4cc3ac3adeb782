-- ===== src/Config/Profiles/Lookup.antt =====
-- Finding and replacing items by uid, as the loops of src-tauri/src/config/profiles.rs do it.
use clash_verge_buty.Config.Profiles.Item.{PrfItem}
use clash_verge_buty.Prelude.{
  ℕ, zero, suc, ◌+◌, String, Bool, Option, none, some, List, [], ◌∷◌, ◌==◌, eq_string, eq_option,
  if◌then◌else◌, find,
}

abbrev pub has_uid : String → PrfItem → Bool
has_uid uid item = item.uid == some uid

-- The first item with the uid.
abbrev pub find_item : String → List PrfItem → Option PrfItem
find_item uid = find (has_uid uid)

-- The loop that changes the first item with the uid and stops; `none` if there is no such item.
unfoldable pub modify_first : String → (PrfItem → PrfItem) → List PrfItem → Option (List PrfItem)
modify_first uid f [] = none
modify_first uid f (x ∷ xs) =
    let rest = modify_first uid f xs in
    if has_uid uid x then some (f x ∷ xs) else elim rest [ none ↦ none | some ys ↦ some (x ∷ ys) ]

-- The loop of `delete_item`: the first index with the uid.
unfoldable pub first_index : String → List PrfItem → Option ℕ
first_index uid [] = none
first_index uid (x ∷ xs) =
    let rest = first_index uid xs in
    if has_uid uid x then some 0 else elim rest [ none ↦ none | some i ↦ some (suc i) ]

-- The loop of `reorder`, which does not stop: the last index with the uid.
unfoldable pub last_index_from : String → ℕ → Option ℕ → List PrfItem → Option ℕ
last_index_from uid i found [] = found
last_index_from uid i found (x ∷ xs) =
    last_index_from uid (i + 1) (if has_uid uid x then some i else found) xs

unfoldable pub last_index : String → List PrfItem → Option ℕ
unfolding last_index_from
last_index uid xs = last_index_from uid 0 none xs

module _ {ℓ} {A : Type ℓ} where
  -- `Vec::remove`; `none` is the panic on an index out of bounds.
  unfoldable pub remove_at : ℕ → List A → Option (A × List A)
  remove_at i [] = none
  remove_at zero (x ∷ xs) = some (x, xs)
  remove_at (suc i) (x ∷ xs) = elim (remove_at i xs) [
    | none ↦ none
    | some (y, ys) ↦ some (y, x ∷ ys)
  ]

  -- `Vec::insert`; `none` is the panic on an index past the end.
  unfoldable pub insert_at : ℕ → A → List A → Option (List A)
  insert_at zero a xs = some (a ∷ xs)
  insert_at (suc i) a [] = none
  insert_at (suc i) a (x ∷ xs) = elim (insert_at i a xs) [ none ↦ none | some ys ↦ some (x ∷ ys) ]

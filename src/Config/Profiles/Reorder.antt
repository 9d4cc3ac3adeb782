-- ===== src/Config/Profiles/Reorder.antt =====
-- `reorder` of src-tauri/src/config/profiles.rs.
use clash_verge_buty.Config.Profiles.Item.{PrfItem}
use clash_verge_buty.Config.Profiles.Store.{
  Store, Machine, ok, err, item_missing, items_or_empty, save_file,
}
use clash_verge_buty.Config.Profiles.Lookup.{has_uid, find_item, last_index, remove_at}
use clash_verge_buty.Config.Profiles.Found.{
  last_index_lem, remove_at-total, insert_at-total, get_elem?-lt,
}
use clash_verge_buty.Config.Profiles.Methods.{get_item, reorder}
use clash_verge_buty.Prelude.{
  ℕ, zero, suc, ◌≡◌, String, none, some, List, [], ◌∷◌, arith, ◌⊎◌, inl, inr, get_elem?,
  Option-cases, true,
}

-- When both uids are known, `reorder` takes the item at the (last) place of the one out of the list
-- and puts it in so that it stands at the (last) place that the other had; every other item keeps
-- its order, no index is out of bounds, and the result is that of saving the new list.
pub reorder-moves :
    (m : Machine) (active_id over_id : String) (s : Store) (i j : ℕ)
    → let xs = items_or_empty s.profiles.items in
      last_index active_id xs ≡ some i
      → last_index over_id xs ≡ some j
      → (x : PrfItem) × (rest ys : List PrfItem) × (has_uid active_id x ≡ true)
        × (remove_at i xs ≡ some (x, rest))
        × (remove_at j ys ≡ some (x, rest))
        × (reorder m active_id over_id s
            ≡ save_file m (record s { profiles = record s.profiles { items = some ys } }))
unfolding reorder
reorder-moves m active_id over_id s i j hi hj =
    let xs = items_or_empty s.profiles.items in
    let (x, at_i, named) = last_index_lem active_id xs hi in
    let (y, at_j, named_j) = last_index_lem over_id xs hj in
    let (rest, taken, len) = remove_at-total i xs at_i in
    let (ys, put, back) = insert_at-total j x rest (omega (arith, get_elem?-lt j xs at_j, len)) in
    (x, rest, ys, named, taken, back, ground arith)

nowhere :
    (uid : String) (ys : List PrfItem) (k : ℕ) (x : PrfItem)
    → find_item uid ys ≡ none
    → get_elem? ys k ≡ some x
    → has_uid uid x ≡ true
    → ⊥
nowhere uid [] k x f g u = cc
nowhere uid (y ∷ ys) zero x f g u = ground arith
nowhere uid (y ∷ ys) (suc k) x f g u = nowhere uid ys k x (ground arith) g u

last_index-none :
    (uid : String) (xs : List PrfItem) → find_item uid xs ≡ none → last_index uid xs ≡ none
last_index-none uid xs h = elim (Option-cases (last_index uid xs)) [
  | inl e ↦ e
  | inr (n, e) ↦ let (x, g, u) = last_index_lem uid xs e in absurd (nowhere uid xs n x h g u)
]

-- When one of the two uids is unknown, `reorder` still answers that all is well, but it has dropped
-- every item from memory (nothing is found any more), and has not saved anything.
pub reorder_unknown_drops_items :
    (m : Machine) (active_id over_id j : String) (s : Store)
    → let xs = items_or_empty s.profiles.items in
      (find_item active_id xs ≡ none) ⊎ (find_item over_id xs ≡ none)
      → let (r, s') = reorder m active_id over_id s in
        (r ≡ ok tt)
        × (s'.profiles.items ≡ none)
        × (get_item j s'.profiles ≡ err item_missing)
        × (s'.stored ≡ s.stored)
unfolding reorder get_item
reorder_unknown_drops_items m active_id over_id j s (inl h) =
    let gone = last_index-none active_id (items_or_empty s.profiles.items) h in ground arith
reorder_unknown_drops_items m active_id over_id j s (inr h) =
    let gone = last_index-none over_id (items_or_empty s.profiles.items) h in ground arith

-- ===== src/Config/Profiles/Delete.antt =====
-- `delete_item` of src-tauri/src/config/profiles.rs.
use clash_verge_buty.Config.Profiles.Item.{PrfItem, global_script_uid}
use clash_verge_buty.Config.Profiles.Store.{
  Store, Machine, ok, items_or_empty, save_file, serialized, remove_file, exists_file, without_file,
  Files,
}
use clash_verge_buty.Config.Profiles.Lookup.{has_uid, find_item, first_index, remove_at}
use clash_verge_buty.Config.Profiles.Found.{has_uid_iff, first_index-removes, find_item-remove_at}
use clash_verge_buty.Config.Profiles.Methods.{get_item, delete_item, remove_item_file}
use clash_verge_buty.Config.Profiles.Changes.{delete_at, head_uid, current_or}
use clash_verge_buty.Prelude.{
  ◌≡◌, ◌≢◌, refl, ap, ◌∙◌, String, Option, none, some, List, [], ◌∷◌, arith, ◌⊎◌, inl, inr,
  Option-cases, Bool-cases, ◌&&◌, false, true, ◌==◌, eq_string, eq_option, eq_iff, if◌then◌else◌,
}

-- The items that `delete_item` leaves.
abbrev pub left : String → Store → List PrfItem
left uid s = let xs = items_or_empty s.profiles.items in (delete_at (first_index uid xs) xs).0

-- Removing the file of an item never fails, and changes nothing but the files.
pub remove_item_file_lem :
    (m : Machine) (file : Option String) (s : Store)
    → (fs : Files) × (remove_item_file m file s ≡ (ok tt, record s { files = fs }))
unfolding remove_item_file remove_file
remove_item_file_lem m none s = (s.files, refl)
remove_item_file_lem m (some file) s = elim (Option-cases (m.resolve file)) [
  | inl e ↦ (s.files, ground arith)
  | inr (path, e) ↦ elim (Bool-cases (exists_file path s.files && m.can_remove path)) [
    | inl t ↦ (without_file path s.files, ground arith)
    | inr f ↦ (s.files, ground arith)
  ]
]

-- The items without the first one that has the uid.
abbrev pub without_first : String → List PrfItem → List PrfItem
without_first uid [] = []
without_first uid (x ∷ xs) =
    let rest = without_first uid xs in if has_uid uid x then xs else x ∷ rest

without_first_lem :
    (uid : String) (xs : List PrfItem)
    → (delete_at (first_index uid xs) xs).0 ≡ without_first uid xs
unfolding delete_at first_index remove_at
without_first_lem uid [] = refl
without_first_lem uid (x ∷ xs) = elim (Bool-cases (has_uid uid x)) [
  | inl hit ↦ rw hit refl
  | inr miss ↦
      let rest = without_first_lem uid xs in
      elim (first_index-removes uid xs) [
        | inl (e, f) ↦ ground (arith, miss, e, rest)
        | inr (i, y, ys, e, f, r) ↦ ground (arith, miss, e, r, rest)
      ]
]

-- Where the store can be written, `delete_item` leaves the items that `left` names, saves them, and
-- answers whether the current profile was deleted; only then does it choose another.
delete_item_lem :
    (m : Machine) (uid : String) (s : Store)
    → uid ≢ global_script_uid
    → s.blocked ≡ false
    → m.can_save ≡ true
    → let (r, s') = delete_item m uid s in
      let gone = current_or uid s.profiles.current == uid in
      (r ≡ ok gone)
      × (s'.profiles.items ≡ some (left uid s))
      × (s'.profiles.current ≡ (if gone then head_uid (left uid s) else s.profiles.current))
      × (s'.stored ≡ some (serialized s'.profiles))
unfolding delete_item save_file
delete_item_lem m uid s h b c =
    let xs = items_or_empty s.profiles.items in
    let (fs, e) = remove_item_file_lem m (delete_at (first_index uid xs) xs).1 s in
    ground (arith, eq_iff uid global_script_uid)

found :
    (uid : String) (xs : List PrfItem) (x : PrfItem)
    → find_item uid xs ≡ some x
    → has_uid uid x ≡ true
found uid [] x h = cc
found uid (y ∷ xs) x h = ground (arith, found uid xs x)

other_uid : (uid j : String) (x : PrfItem) → j ≢ uid → has_uid uid x ≡ true → has_uid j x ≡ false
other_uid uid j x h u = ground (arith, has_uid_iff uid x, has_uid_iff j x)

pub left-find_item :
    (uid j : String) (s : Store)
    → j ≢ uid
    → find_item j (left uid s) ≡ find_item j (items_or_empty s.profiles.items)
unfolding delete_at
left-find_item uid j s h =
    let xs = items_or_empty s.profiles.items in
    elim (first_index-removes uid xs) [
      | inl (e, f) ↦ ground arith
      | inr (i, x, ys, e, f, r) ↦
          let same = find_item-remove_at j i xs r (other_uid uid j x h (found uid xs x f)) in
          ground arith
    ]

-- Where the store can be written, `delete_item` of a uid other than the global script's succeeds.
-- The items are the old ones without the first that has the uid (all of them, if none has it). Every
-- other uid still finds what it found; `profiles.yaml` holds what is in memory, without the items'
-- data; another profile that was the current one remains so; and if the deleted profile was the
-- current one, or none was chosen, the answer is `true` and the first item left, if any, becomes the
-- current one.
pub delete_item-keeps_others :
    (m : Machine) (uid j c : String) (s : Store)
    → uid ≢ global_script_uid
    → s.blocked ≡ false
    → m.can_save ≡ true
    → j ≢ uid
    → let (r, s') = delete_item m uid s in
      (s'.profiles.items ≡ some (without_first uid (items_or_empty s.profiles.items)))
      × (get_item j s'.profiles ≡ get_item j s.profiles)
      × (s'.stored ≡ some (serialized s'.profiles))
      × (s.profiles.current ≡ some c → c ≢ uid → (r ≡ ok false) × (s'.profiles.current ≡ some c))
      × ((s.profiles.current ≡ some uid) ⊎ (s.profiles.current ≡ none)
          → (r ≡ ok true) × (s'.profiles.current ≡ head_uid (items_or_empty s'.profiles.items)))
unfolding get_item current_or
delete_item-keeps_others m uid j c s h b k d =
    let done = delete_item_lem m uid s h b k in
    let same = left-find_item uid j s d in
    (
      done.1 ∙ ap some (without_first_lem uid (items_or_empty s.profiles.items)),
      ground (arith, done, same),
      done.3,
      λ e f. ground (arith, done, eq_iff c uid),
      λ e. ground (arith, done, eq_iff uid uid),
    )

head_of_left :
    (uid : String) (s : Store) (g : PrfItem) (rest : List PrfItem)
    → uid ≢ global_script_uid
    → s.profiles.items ≡ some (g ∷ rest)
    → g.uid ≡ some global_script_uid
    → head_uid (left uid s) ≡ some global_script_uid
unfolding head_uid delete_at first_index
head_of_left uid s g rest h e u = ground (arith, has_uid_iff uid g, eq_iff uid global_script_uid)

-- Where the global script stands first among the items, as `ensure_global_script` puts it, deleting
-- the current profile makes the global script the current profile, though it is no subscription.
pub delete_item_chooses_global_script :
    (m : Machine) (uid : String) (s : Store) (g : PrfItem) (rest : List PrfItem)
    → uid ≢ global_script_uid
    → s.blocked ≡ false
    → m.can_save ≡ true
    → s.profiles.items ≡ some (g ∷ rest)
    → g.uid ≡ some global_script_uid
    → s.profiles.current ≡ some uid
    → (delete_item m uid s).1.profiles.current ≡ some global_script_uid
unfolding current_or
delete_item_chooses_global_script m uid s g rest h b k e u c =
    let done = delete_item_lem m uid s h b k in
    let first = head_of_left uid s g rest h e u in ground (arith, done, first, eq_iff uid uid)

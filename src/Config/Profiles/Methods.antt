-- ===== src/Config/Profiles/Methods.antt =====
-- The methods of `IProfiles` in src-tauri/src/config/profiles.rs, one function each.
use clash_verge_buty.Config.Profiles.Item.{PrfItem, global_script_uid, global_script_file}
use clash_verge_buty.Config.Profiles.Store.{
  IProfiles, Machine, Method, Result, ok, err, uid_null, file_null, item_missing,
  global_script_fixed, panicked, ◌>>=◌, ◌>>◌, pure, fail, put_items, put_profiles, items_or_empty,
  save_file, write_file, resolve_path, remove_file, exists_file,
}
use clash_verge_buty.Config.Profiles.Lookup.{
  has_uid, find_item, modify_first, first_index, last_index, remove_at, insert_at,
}
use clash_verge_buty.Config.Profiles.Changes.{
  chain_without_global, current_or, delete_at, head_uid, not_global, patched_item, update_file,
  updated_item, with_global_script,
}
use clash_verge_buty.Prelude.{
  ℕ, String, Bool, true, false, ◌||◌, Option, none, some, List, [], ◌∷◌, ◌++◌, ◌==◌, eq_string,
  eq_option, eq_nat, if◌then◌else◌, any, retain,
}

-- `each.uid == some_uid` for some item.
abbrev pub knows : String → List PrfItem → Bool
knows uid = any (has_uid uid)

-- `get_item`, a read.
unfoldable pub get_item : String → IProfiles → Result PrfItem
get_item uid p = elim (find_item uid (items_or_empty p.items)) [
  | none ↦ err item_missing
  | some item ↦ ok item
]

patched_current : IProfiles → Option String → Option String
patched_current p none = p.current
patched_current p (some uid) = if knows uid (items_or_empty p.items) then some uid else p.current

patched_chain : Option (List String) → Option (List String) → Option (List String)
patched_chain old none = old
patched_chain old (some uids) = some (retain not_global uids)

-- It never fails; only `current` and `chain` of the patch are read.
unfoldable pub patch_config : IProfiles → Method (Unit {0})
unfolding patched_current patched_chain
patch_config patch s =
    put_profiles
      (record {
        current = patched_current s.profiles patch.current;
        chain = patched_chain s.profiles.chain patch.chain;
        items = some (items_or_empty s.profiles.items);
      })
      s

push_item : PrfItem → Method (Unit {0})
push_item item s = put_items (items_or_empty s.profiles.items ++ item ∷ []) s

module _ (m : Machine) where
  unfoldable pub store_file_data : Option String → Option String → Method (Unit {0})
  store_file_data file none = pure tt
  store_file_data none (some content) = fail file_null
  store_file_data (some file) (some content) = do
    path ← resolve_path m file
    write_file m path content

  append_checked : PrfItem → Option String → Method (Unit {0})
  unfolding push_item
  append_checked item none = fail uid_null
  append_checked item (some uid) = do
    store_file_data item.file item.file_data
    push_item (record item { file_data = none })
    save_file m

  unfoldable pub append_item : PrfItem → Method (Unit {0})
  unfolding append_checked
  append_item item = append_checked item item.uid

  -- `items.remove(old)` and `items.insert(new, item)`.
  move_item : ℕ → ℕ → List PrfItem → Method (Unit {0})
  move_item old new xs s = elim (remove_at old xs) [
    | none ↦ (err panicked, s)
    | some (x, rest) ↦ elim (insert_at new x rest) [
      | none ↦ (err panicked, s)
      | some ys ↦ (do put_items ys; save_file m) s
    ]
  ]

  move_found : Option ℕ → Option ℕ → List PrfItem → Method (Unit {0})
  unfolding move_item
  move_found none new xs = pure tt
  move_found (some old) none xs = pure tt
  move_found (some old) (some new) xs = move_item old new xs

  -- `self.items.take()` leaves no items behind; they are put back only after the move.
  unfoldable pub reorder : String → String → Method (Unit {0})
  unfolding move_found last_index
  reorder active_id over_id s =
      let xs = items_or_empty s.profiles.items in
      move_found (last_index active_id xs) (last_index over_id xs) xs
        (record s { profiles = record s.profiles { items = none } })

  patch_found : Option (List PrfItem) → Method (Unit {0})
  patch_found none s = (
    err item_missing,
    record s { profiles = record s.profiles { items = some (items_or_empty s.profiles.items) } },
  )
  patch_found (some ys) s = (do put_items ys; save_file m) s

  unfoldable pub patch_item : String → PrfItem → Method (Unit {0})
  unfolding patch_found
  patch_item uid item s =
      if uid == global_script_uid
      then (err global_script_fixed, s)
      else patch_found (modify_first uid (patched_item item) (items_or_empty s.profiles.items)) s

  unfoldable pub store_update : String → PrfItem → PrfItem → Option String → Method (Unit {0})
  store_update uid item each none = pure tt
  store_update uid item each (some content) = do
    path ← resolve_path m (update_file uid item each)
    write_file m path content

  unfoldable pub update_found : String → PrfItem → Option PrfItem → List PrfItem → Method (Unit {0})
  unfolding store_update
  update_found uid item none xs = fail item_missing
  update_found uid item (some each) xs = do
    put_items (items_or_empty (modify_first uid (updated_item uid item) xs))
    store_update uid item each item.file_data
    save_file m

  unfoldable pub update_item : String → PrfItem → Method (Unit {0})
  unfolding update_found
  update_item uid item s =
      let xs = items_or_empty s.profiles.items in
      (do put_items xs; update_found uid item (find_item uid xs) xs) s

  -- Removes the file of a removed item, where its name is accepted; failures are ignored.
  unfoldable pub remove_item_file : Option String → Method (Unit {0})
  remove_item_file none s = (ok tt, s)
  remove_item_file (some file) s = elim (m.resolve file) [
    | none ↦ (ok tt, s)
    | some path ↦ remove_file m path s
  ]

  unfoldable pub delete_item : String → Method Bool
  delete_item uid s =
      if uid == global_script_uid
      then (err global_script_fixed, s)
      else let xs = items_or_empty s.profiles.items in
        let (ys, file) = delete_at (first_index uid xs) xs in
        let was_current = current_or uid s.profiles.current == uid in
        (do
          remove_item_file file
          put_profiles (record s.profiles {
            current = if was_current then head_uid ys else s.profiles.current;
            items = some ys;
          })
          save_file m
          pure was_current)
          s

  unfoldable pub write_script_if_missing : Method (Unit {0})
  unfolding exists_file
  write_script_if_missing = do
    path ← resolve_path m global_script_file
    λ s. if exists_file path s.files then (ok tt, s) else write_file m path m.script_template s

  save_if : Bool → Method (Unit {0})
  save_if true = save_file m
  save_if false = pure tt

  unfoldable pub ensure_global_script : Method (Unit {0})
  unfolding save_if
  ensure_global_script s =
      let (xs, items_changed) = with_global_script m.now (items_or_empty s.profiles.items) in
      let (uids, chain_changed) = chain_without_global s.profiles.chain in
      (do
        put_profiles (record s.profiles { items = some xs; chain = uids })
        write_script_if_missing
        save_if (items_changed || chain_changed))
        s

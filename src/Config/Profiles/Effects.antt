-- ===== src/Config/Profiles/Effects.antt =====
-- What the methods of src-tauri/src/config/profiles.rs leave in memory, whatever the machine
-- answers and whether or not they succeed.
use clash_verge_buty.Config.Profiles.Item.{PrfItem, global_script_uid}
use clash_verge_buty.Config.Profiles.Store.{
  Store, Machine, items_or_empty, save_file, write_file, resolve_path, with_items,
}
use clash_verge_buty.Config.Profiles.Lookup.{modify_first, first_index}
use clash_verge_buty.Config.Profiles.Found.{modify_first-finds}
use clash_verge_buty.Config.Profiles.Delete.{left, remove_item_file_lem}
use clash_verge_buty.Config.Profiles.Methods.{
  append_item, patch_item, update_item, delete_item, store_file_data, store_update, update_found,
}
use clash_verge_buty.Config.Profiles.Changes.{
  patched_item, updated_item, update_file, delete_at, current_or, head_uid,
}
use clash_verge_buty.Prelude.{
  ◌≡◌, ◌≢◌, refl, String, Option, none, some, List, [], ◌∷◌, ◌++◌, arith, ◌⊎◌, inl, inr,
  Option-cases, Bool-cases, ◌==◌, eq_string, eq_option, eq_nat, eq_iff, if◌then◌else◌,
}

-- What a method leaves in memory, whatever the machine answers.
pub save_file-profiles : (m : Machine) (s : Store) → (save_file m s).1.profiles ≡ s.profiles
unfolding save_file
save_file-profiles m s = ground arith

pub write_file-profiles :
    (m : Machine) (path content : String) (s : Store)
    → (write_file m path content s).1.profiles ≡ s.profiles
unfolding write_file
write_file-profiles m path content s = ground arith

store_file_data-profiles :
    (m : Machine) (file content : Option String) (s : Store)
    → (store_file_data m file content s).1.profiles ≡ s.profiles
unfolding store_file_data resolve_path
store_file_data-profiles m file none s = refl
store_file_data-profiles m none (some content) s = refl
store_file_data-profiles m (some file) (some content) s = elim (Option-cases (m.resolve file)) [
  | inl e ↦ ground arith
  | inr (path, e) ↦ ground (arith, write_file-profiles m path content s)
]

store_update-profiles :
    (m : Machine) (uid : String) (item x : PrfItem) (content : Option String) (s : Store)
    → (store_update m uid item x content s).1.profiles ≡ s.profiles
unfolding store_update resolve_path
store_update-profiles m uid item x none s = refl
store_update-profiles m uid item x (some content) s =
    elim (Option-cases (m.resolve (update_file uid item x))) [
      | inl e ↦ ground arith
      | inr (path, e) ↦ ground (arith, write_file-profiles m path content s)
    ]

pub append_item-profiles :
    (m : Machine) (item : PrfItem) (s : Store)
    → let ys = items_or_empty s.profiles.items ++ record item { file_data = none } ∷ [] in
      let p = (append_item m item s).1.profiles in
      (p ≡ s.profiles) ⊎ (p ≡ record s.profiles { items = some ys })
unfolding append_item
append_item-profiles m item s =
    let after_data = (store_file_data m item.file item.file_data s).1 in
    let ys = items_or_empty s.profiles.items ++ record item { file_data = none } ∷ [] in
    ground (
      arith,
      store_file_data-profiles m item.file item.file_data s,
      save_file-profiles m (with_items ys after_data),
    )

pub patch_item-profiles :
    (m : Machine) (uid : String) (item : PrfItem) (s : Store)
    → let xs = items_or_empty s.profiles.items in
      let p = (patch_item m uid item s).1.profiles in
      (p ≡ s.profiles)
      ⊎ (p ≡ record s.profiles { items = some xs })
      ⊎ ((ys : List PrfItem) × (uid ≢ global_script_uid)
          × (modify_first uid (patched_item item) xs ≡ some ys)
          × (p ≡ record s.profiles { items = some ys }))
unfolding patch_item
patch_item-profiles m uid item s = elim (Bool-cases (uid == global_script_uid)) [
  | inl e ↦ inl (ground arith)
  | inr d ↦
      let xs = items_or_empty s.profiles.items in
      elim (Option-cases (modify_first uid (patched_item item) xs)) [
        | inl e ↦ inr (inl (ground arith))
        | inr (ys, e) ↦ inr (
            inr (
              ys,
              ground (arith, eq_iff uid global_script_uid),
              e,
              ground (arith, save_file-profiles m (with_items ys s)),
            ))
      ]
]

update_found-profiles :
    (m : Machine) (uid : String) (item x : PrfItem) (xs ys : List PrfItem) (s : Store)
    → modify_first uid (updated_item uid item) xs ≡ some ys
    → (update_found m uid item (some x) xs s).1.profiles ≡ record s.profiles { items = some ys }
unfolding update_found
update_found-profiles m uid item x xs ys s e =
    let after = (store_update m uid item x item.file_data (with_items ys s)).1 in
    ground (
      arith,
      store_update-profiles m uid item x item.file_data (with_items ys s),
      save_file-profiles m after,
    )

pub update_item-profiles :
    (m : Machine) (uid : String) (item : PrfItem) (s : Store)
    → let xs = items_or_empty s.profiles.items in
      let p = (update_item m uid item s).1.profiles in
      (p ≡ record s.profiles { items = some xs })
      ⊎ ((ys : List PrfItem) × (modify_first uid (updated_item uid item) xs ≡ some ys)
          × (p ≡ record s.profiles { items = some ys }))
unfolding update_item
update_item-profiles m uid item s =
    let xs = items_or_empty s.profiles.items in
    elim (modify_first-finds uid (updated_item uid item) xs) [
      | inl (e, f) ↦ inl (rw f (unfold update_found in refl))
      | inr (ys, x, e, f) ↦
          inr (ys, e, rw f (update_found-profiles m uid item x xs ys (with_items xs s) e))
    ]

pub delete_item-profiles :
    (m : Machine) (uid : String) (s : Store)
    → let p = (delete_item m uid s).1.profiles in
      (p ≡ s.profiles)
      ⊎ ((current : Option String) × (uid ≢ global_script_uid)
          × (p ≡ record s.profiles { current = current; items = some (left uid s) }))
unfolding delete_item
delete_item-profiles m uid s = elim (Bool-cases (uid == global_script_uid)) [
  | inl e ↦ inl (ground arith)
  | inr d ↦
      let xs = items_or_empty s.profiles.items in
      let (fs, e) = remove_item_file_lem m (delete_at (first_index uid xs) xs).1 s in
      let current =
        if current_or uid s.profiles.current == uid
        then head_uid (left uid s)
        else s.profiles.current in
      let after = record s {
        files = fs;
        profiles = record s.profiles { current = current; items = some (left uid s) };
      } in
      inr (
        current,
        ground (arith, eq_iff uid global_script_uid),
        ground (arith, save_file-profiles m after),
      )
]

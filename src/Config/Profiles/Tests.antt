-- ===== src/Config/Profiles/Tests.antt =====
-- Instances of the theorems about src-tauri/src/config/profiles.rs, and tests.
use clash_verge_buty.Config.Profiles.Item.{PrfItem}
use clash_verge_buty.Config.Profiles.Store.{
  Store, Machine, ok, err, item_missing, items_or_empty, save_file, serialized, template,
}
use clash_verge_buty.Config.Profiles.Lookup.{has_uid, last_index, remove_at}
use clash_verge_buty.Config.Profiles.Methods.{
  get_item, patch_item, update_item, delete_item, reorder, ensure_global_script,
}
use clash_verge_buty.Config.Profiles.Changes.{head_uid, needs_repair, update_file}
use clash_verge_buty.Config.Profiles.Reorder.{reorder-moves, reorder_unknown_drops_items}
use clash_verge_buty.Config.Profiles.Delete.{
  without_first, delete_item-keeps_others, delete_item_chooses_global_script,
}
use clash_verge_buty.Config.Profiles.Update.{
  Patched, Updated, patch_item-get_item, update_item-get_item,
}
use clash_verge_buty.Config.Profiles.GlobalScript.{
  Guarded, Call, appends, deletes, patches, run, run-Guarded,
}
use clash_verge_buty.Config.Profiles.EnsureScript.{ensure_global_script-Guarded}
use clash_verge_buty.Prelude.{
  ◌≡◌, ◌≢◌, refl, String, none, some, List, [], ◌∷◌, arith, ◌⊎◌, inl, inr, true, false, ◌==◌,
  eq_string, eq_option, eq_iff, if◌then◌else◌, length,
}

abbrev plain : String → PrfItem
plain uid = record {
  uid = some uid;
  itype = some "remote";
  name = some "profile";
  file = some "r.yaml";
  desc = none;
  url = none;
  selected = none;
  extra = none;
  updated = none;
  option = none;
  file_data = none;
}

abbrev script_item : PrfItem
script_item = record {
  uid = some "__global_script__";
  itype = some "script";
  name = some "Global Script";
  file = some "global-script.js";
  desc = some "Global Script";
  url = none;
  selected = none;
  extra = none;
  updated = some 5;
  option = none;
  file_data = none;
}

abbrev listed : List PrfItem
listed = script_item ∷ plain "r1" ∷ plain "r2" ∷ []

abbrev sample : Store
sample = record {
  profiles = record { current = some "r1"; chain = some ("r2" ∷ []); items = some listed };
  stored = none;
  files = ("global-script.js", "function main(c) { return c; }") ∷ ("r.yaml", "rules: []") ∷ [];
  blocked = false;
}

abbrev machine : Machine
machine = record {
  resolve = λ file. some file;
  can_write = λ path. true;
  can_remove = λ path. true;
  can_save = true;
  now = 100;
  script_template = "";
}

r1_not_global : ◌≢◌ {A = String} "r1" "__global_script__"
r1_not_global = ground (arith, eq_iff "r1" "__global_script__")

r1_not_r2 : ◌≢◌ {A = String} "r2" "r1"
r1_not_r2 = ground (arith, eq_iff "r2" "r1")

last_r1 : last_index "r1" listed ≡ some 1
unfolding last_index
last_r1 = refl

last_r2 : last_index "r2" listed ≡ some 2
unfolding last_index
last_r2 = refl

find_r1 : get_item "r1" sample.profiles ≡ ok (plain "r1")
unfolding get_item
find_r1 = refl

reorder-moves_example :
    (x : PrfItem) × (rest ys : List PrfItem) × (has_uid "r1" x ≡ true)
    × (remove_at 1 listed ≡ some (x, rest))
    × (remove_at 2 ys ≡ some (x, rest))
    × (reorder machine "r1" "r2" sample
        ≡ save_file machine
            (record sample { profiles = record sample.profiles { items = some ys } }))
reorder-moves_example = reorder-moves machine "r1" "r2" sample 1 2 last_r1 last_r2

reorder_unknown_drops_items_example :
    ((reorder machine "r9" "r2" sample).0 ≡ ok tt)
    × ((reorder machine "r9" "r2" sample).1.profiles.items ≡ none)
    × (get_item "r1" (reorder machine "r9" "r2" sample).1.profiles ≡ err item_missing)
    × ((reorder machine "r9" "r2" sample).1.stored ≡ none)
reorder_unknown_drops_items_example =
    reorder_unknown_drops_items machine "r9" "r2" "r1" sample (inl refl)

delete_item-keeps_others_example :
    let (r, s') = delete_item machine "r1" sample in
    (s'.profiles.items ≡ some (without_first "r1" listed))
    × (get_item "r2" s'.profiles ≡ get_item "r2" sample.profiles)
    × (s'.stored ≡ some (serialized s'.profiles))
    × (sample.profiles.current ≡ some "r2"
        → ◌≢◌ {A = String} "r2" "r1"
        → (r ≡ ok false) × (s'.profiles.current ≡ some "r2"))
    × ((sample.profiles.current ≡ some "r1") ⊎ (sample.profiles.current ≡ none)
        → (r ≡ ok true) × (s'.profiles.current ≡ head_uid (items_or_empty s'.profiles.items)))
delete_item-keeps_others_example =
    delete_item-keeps_others machine "r1" "r2" "r2" sample r1_not_global refl refl r1_not_r2

delete_item_chooses_global_script_example :
    (delete_item machine "r1" sample).1.profiles.current ≡ some "__global_script__"
delete_item_chooses_global_script_example =
    delete_item_chooses_global_script machine "r1" sample script_item (plain "r1" ∷ plain "r2" ∷ [])
      r1_not_global refl refl refl refl refl

abbrev renamed : PrfItem
renamed = record (plain "r7") { name = some "new name"; file = none }

patch_item-get_item_example :
    let (r, s') = patch_item machine "r1" renamed sample in
    (r ≡ ok tt)
    × ((y : PrfItem) × Patched renamed (plain "r1") y
        × (get_item "r1" s'.profiles
            ≡ (if ◌==◌ {A = String} "r1" "r1" then ok y else get_item "r1" sample.profiles)))
    × (s'.stored ≡ some (serialized s'.profiles))
    × (length (items_or_empty s'.profiles.items) ≡ 3)
patch_item-get_item_example =
    patch_item-get_item machine "r1" "r1" renamed (plain "r1") sample r1_not_global (refl, refl)
      find_r1

abbrev fresh_data : PrfItem
fresh_data = record (plain "r1") { file_data = some "rules: [a]"; updated = some 100 }

update_item-get_item_example :
    let (r, s') = update_item machine "r1" fresh_data sample in
    (r ≡ ok tt)
    × ((y : PrfItem) × Updated "r1" fresh_data (plain "r1") y
        × (get_item "r1" s'.profiles
            ≡ (if ◌==◌ {A = String} "r1" "r1" then ok y else get_item "r1" sample.profiles)))
    × (s'.stored ≡ some (serialized s'.profiles))
update_item-get_item_example =
    update_item-get_item machine "r1" "r1" fresh_data (plain "r1") sample (refl, refl)
      (inr ("r.yaml", unfold update_file in refl, refl)) find_r1

abbrev new_item : PrfItem
new_item = record (plain "r3") { file_data = some "rules: []" }

sample-Guarded : Guarded sample.profiles
unfolding needs_repair
sample-Guarded = record { script = refl; chain = refl }

abbrev calls : List (Machine × Call)
calls =
    (machine, deletes "__global_script__")
    ∷ (machine, patches "__global_script__" renamed)
    ∷ (machine, deletes "r1")
    ∷ (machine, appends script_item)
    ∷ []

run-Guarded_example : Guarded (run calls sample).profiles
run-Guarded_example = run-Guarded calls sample sample-Guarded

abbrev blank : Store
blank = record sample { profiles = template; files = [] }

ensure_global_script-Guarded_example : Guarded (ensure_global_script machine blank).1.profiles
ensure_global_script-Guarded_example = ensure_global_script-Guarded machine blank

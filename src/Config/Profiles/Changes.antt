-- ===== src/Config/Profiles/Changes.antt =====
-- What the methods of `IProfiles` in src-tauri/src/config/profiles.rs do to an item, the items and
-- the chain.
use clash_verge_buty.Config.Profiles.Item.{
  PrfItem, or_else, global_script_uid, global_script_file, global_script_name, global_script_desc,
  global_script,
}
use clash_verge_buty.Config.Profiles.Store.{items_or_empty}
use clash_verge_buty.Config.Profiles.Lookup.{find_item, modify_first, remove_at}
use clash_verge_buty.Prelude.{
  ℕ, String, Bool, true, false, ◌||◌, Option, none, some, List, [], ◌∷◌, ◌==◌, ◌!=◌, eq_string,
  eq_option, eq_nat, if◌then◌else◌, retain, length,
}
use Prim.Native.String

abbrev pub not_global : String → Bool
not_global uid = uid != global_script_uid

-- The nine `patch!` lines of `patch_item`.
unfoldable pub patched_item : PrfItem → PrfItem → PrfItem
patched_item item each = record each {
  itype = or_else item.itype each.itype;
  name = or_else item.name each.name;
  desc = or_else item.desc each.desc;
  file = or_else item.file each.file;
  url = or_else item.url each.url;
  selected = or_else item.selected each.selected;
  extra = or_else item.extra each.extra;
  updated = or_else item.updated each.updated;
  option = or_else item.option each.option;
}

repaired : Option String → String → Option String
repaired field value = if field == some value then field else some value

unfoldable pub repaired_script : PrfItem → PrfItem
unfolding repaired
repaired_script item = record item {
  itype = repaired item.itype "script";
  name = repaired item.name global_script_name;
  desc = repaired item.desc global_script_desc;
  file = repaired item.file global_script_file;
}

-- Whether one of the four comparisons of `ensure_global_script` found a difference.
unfoldable pub needs_repair : PrfItem → Bool
needs_repair item =
    item.itype != some "script"
    || (item.name != some global_script_name
        || (item.desc != some global_script_desc || item.file != some global_script_file))

-- The items with the global script among them, and whether they changed.
unfoldable pub with_global_script : ℕ → List PrfItem → List PrfItem × Bool
unfolding repaired_script needs_repair modify_first
with_global_script now xs = elim (find_item global_script_uid xs) [
  | none ↦ (global_script now ∷ xs, true)
  | some item ↦
      (items_or_empty (modify_first global_script_uid repaired_script xs), needs_repair item)
]

unfoldable pub chain_without_global : Option (List String) → Option (List String) × Bool
chain_without_global none = (none, false)
chain_without_global (some uids) =
    let kept = retain not_global uids in (some kept, length uids != length kept)

-- The file that new data goes to: the item's own, the update's, or one named after the uid.
unfoldable pub update_file : String → PrfItem → PrfItem → String
update_file uid item each = elim (or_else each.file item.file) [
  | none ↦ String.◌++◌ uid ".yaml"
  | some file ↦ file
]

unfoldable pub updated_item : String → PrfItem → PrfItem → PrfItem
updated_item uid item each = record each {
  extra = item.extra;
  updated = item.updated;
  file = elim item.file_data [ none ↦ each.file | some content ↦ some (update_file uid item each) ];
}

-- The items without the one at the index, and the file that it named.
unfoldable pub delete_at : Option ℕ → List PrfItem → List PrfItem × Option String
unfolding remove_at
delete_at none xs = (xs, none)
delete_at (some i) xs = elim (remove_at i xs) [ none ↦ (xs, none) | some (x, ys) ↦ (ys, x.file) ]

unfoldable pub head_uid : List PrfItem → Option String
head_uid [] = none
head_uid (x ∷ xs) = x.uid

-- `self.current.as_ref().unwrap_or(&uid)`
unfoldable pub current_or : String → Option String → String
current_or uid none = uid
current_or uid (some current) = current

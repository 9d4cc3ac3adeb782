-- ===== src/Config/Profiles/Update.antt =====
-- `append_item`, `patch_item` and `update_item` of src-tauri/src/config/profiles.rs.
use clash_verge_buty.Config.Profiles.Item.{PrfItem, or_else, global_script_uid}
use clash_verge_buty.Config.Profiles.Store.{
  Store, Machine, ok, items_or_empty, save_file, write_file, resolve_path, serialized, saved,
  with_items, without_file,
}
use clash_verge_buty.Config.Profiles.Lookup.{find_item, modify_first}
use clash_verge_buty.Config.Profiles.Found.{
  find_item-modify_first, modify_first-finds, length-modify_first,
}
use clash_verge_buty.Config.Profiles.Methods.{
  get_item, patch_item, update_item, store_update, update_found,
}
use clash_verge_buty.Config.Profiles.Changes.{patched_item, updated_item, update_file}
use clash_verge_buty.Prelude.{
  ◌≡◌, ◌≢◌, refl, String, Option, none, some, List, ◌∷◌, ◌++◌, arith, ◌⊎◌, inl, inr, length,
  Option-cases, false, true, ◌==◌, eq_string, eq_option, eq_iff, if◌then◌else◌,
}
use Prim.Native.String

pub patched_item-uid : (item x : PrfItem) → (patched_item item x).uid ≡ x.uid
unfolding patched_item
patched_item-uid item x = refl

-- A new value where one is given, otherwise the old one.
abbrev pub Given {ℓ} : {A : Type ℓ} → Option A → Option A → Option A → Type ℓ
Given none old new = new ≡ old
Given (some v) old new = new ≡ some v

-- An item after a patch, field by field.
pub record Patched (patch old new : PrfItem) : Type 0 where
  pub uid : new.uid ≡ old.uid
  pub itype : Given patch.itype old.itype new.itype
  pub name : Given patch.name old.name new.name
  pub file : Given patch.file old.file new.file
  pub desc : Given patch.desc old.desc new.desc
  pub url : Given patch.url old.url new.url
  pub selected : Given patch.selected old.selected new.selected
  pub extra : Given patch.extra old.extra new.extra
  pub updated : Given patch.updated old.updated new.updated
  pub option : Given patch.option old.option new.option
  pub file_data : new.file_data ≡ old.file_data

given {ℓ} : {A : Type ℓ} → (patch old : Option A) → Given patch old (or_else patch old)
given none old = refl
given (some v) old = refl

patched_item-Patched : (patch x : PrfItem) → Patched patch x (patched_item patch x)
unfolding patched_item
patched_item-Patched patch x = record {
  uid = refl;
  itype = given patch.itype x.itype;
  name = given patch.name x.name;
  file = given patch.file x.file;
  desc = given patch.desc x.desc;
  url = given patch.url x.url;
  selected = given patch.selected x.selected;
  extra = given patch.extra x.extra;
  updated = given patch.updated x.updated;
  option = given patch.option x.option;
  file_data = refl;
}

-- The two conditions under which `profiles.yaml` can be written.
abbrev pub Writable : Machine → Store → Type 0
Writable m s = (s.blocked ≡ false) × (m.can_save ≡ true)

save_file_lem : (m : Machine) (s : Store) → Writable m s → save_file m s ≡ (ok tt, saved s)
unfolding save_file
save_file_lem m s w = ground arith

patch_item_known :
    (m : Machine) (uid : String) (item : PrfItem) (s : Store) {ys : List PrfItem}
    → uid ≢ global_script_uid
    → Writable m s
    → modify_first uid (patched_item item) (items_or_empty s.profiles.items) ≡ some ys
    → patch_item m uid item s ≡ (ok tt, saved (with_items ys s))
unfolding patch_item
patch_item_known m uid item s {ys} h w e =
    ground (arith, eq_iff uid global_script_uid, save_file_lem m (with_items ys s) w)

-- Where the store can be written, `patch_item` of a known uid succeeds: that uid then finds its item
-- with those of the nine fields (type, name, description, file, url, selected, extra, updated, option)
-- that the patch gives, and the rest as it was; every other uid finds what it found, the number of
-- items is the same, and `profiles.yaml` holds what is in memory, without the items' data.
pub patch_item-get_item :
    (m : Machine) (uid j : String) (item x : PrfItem) (s : Store)
    → uid ≢ global_script_uid
    → Writable m s
    → get_item uid s.profiles ≡ ok x
    → let (r, s') = patch_item m uid item s in
      (r ≡ ok tt)
      × ((y : PrfItem) × Patched item x y
          × (get_item j s'.profiles ≡ (if j == uid then ok y else get_item j s.profiles)))
      × (s'.stored ≡ some (serialized s'.profiles))
      × (length (items_or_empty s'.profiles.items) ≡ length (items_or_empty s.profiles.items))
unfolding get_item
patch_item-get_item m uid j item x s h w g =
    let xs = items_or_empty s.profiles.items in
    elim (modify_first-finds uid (patched_item item) xs) [
      | inl (a, f) ↦ absurd (ground arith)
      | inr (ys, y, a, f) ↦
          let same =
            find_item-modify_first uid j (patched_item item) xs {ys = ys} (patched_item-uid item)
              a in
          let len = length-modify_first uid (patched_item item) xs {ys = ys} a in
          rw (patch_item_known m uid item s {ys = ys} h w a) (
            refl,
            (patched_item item x, patched_item-Patched item x, ground (arith, eq_iff j uid)),
            refl,
            len,
          )
    ]

pub updated_item-uid : (uid : String) (item x : PrfItem) → (updated_item uid item x).uid ≡ x.uid
unfolding updated_item
updated_item-uid uid item x = refl

-- The file that an update with data goes to: the item's own, the update's, or one named after the uid.
abbrev pub DataFile : String → Option String → Option String → Option String → Type 0
DataFile uid (some file) given new = new ≡ some file
DataFile uid none (some file) new = new ≡ some file
DataFile uid none none new = new ≡ some (String.◌++◌ uid ".yaml")

abbrev pub UpdatedFile : String → PrfItem → PrfItem → Option String → Option String → Type 0
UpdatedFile uid item old none new = new ≡ old.file
UpdatedFile uid item old (some content) new = DataFile uid old.file item.file new

-- An item after an update, field by field.
pub record Updated (uid : String) (item old new : PrfItem) : Type 0 where
  pub extra : new.extra ≡ item.extra
  pub updated : new.updated ≡ item.updated
  pub file : UpdatedFile uid item old item.file_data new.file
  pub others : new ≡ record old { extra = new.extra; updated = new.updated; file = new.file }

data_file :
    (uid : String) (own given : Option String)
    → DataFile uid own given
        (some (elim (or_else own given) [ none ↦ String.◌++◌ uid ".yaml" | some file ↦ file ]))
data_file uid (some file) given = refl
data_file uid none (some file) = refl
data_file uid none none = refl

updated_file :
    (uid : String) (item x : PrfItem) (content : Option String)
    → UpdatedFile uid item x content
        (elim content [ none ↦ x.file | some text ↦ some (update_file uid item x) ])
unfolding update_file
updated_file uid item x none = refl
updated_file uid item x (some text) = data_file uid x.file item.file

updated_item-Updated :
    (uid : String) (item x : PrfItem) → Updated uid item x (updated_item uid item x)
unfolding updated_item
updated_item-Updated uid item x = record {
  extra = refl;
  updated = refl;
  file = updated_file uid item x item.file_data;
  others = refl;
}

-- The file that the update's data is written to can be written, if there is any data.
abbrev pub CanStore : Machine → String → PrfItem → PrfItem → Type 0
CanStore m uid item x =
    (item.file_data ≡ none)
    ⊎ ((path : String) × (m.resolve (update_file uid item x) ≡ some path)
        × (m.can_write path ≡ true))

store_update_lem :
    (m : Machine) (uid : String) (item x : PrfItem) (s : Store)
    → CanStore m uid item x
    → (fs : List (String × String)) × (store_update m uid item x item.file_data s
        ≡ (ok tt, record s { files = fs }))
unfolding store_update resolve_path write_file
store_update_lem m uid item x s (inl e) = (s.files, ground arith)
store_update_lem m uid item x s (inr (path, r, w)) = elim (Option-cases item.file_data) [
  | inl e ↦ (s.files, ground arith)
  | inr (content, e) ↦ ((path, content) ∷ without_file path s.files, ground arith)
]

update_item_known :
    (m : Machine) (uid : String) (item x : PrfItem) (s : Store) {ys : List PrfItem}
    → Writable m s
    → find_item uid (items_or_empty s.profiles.items) ≡ some x
    → modify_first uid (updated_item uid item) (items_or_empty s.profiles.items) ≡ some ys
    → CanStore m uid item x
    → (fs : List (String × String)) × (update_item m uid item s
        ≡ (ok tt, saved (record (with_items ys s) { files = fs })))
unfolding update_item update_found
update_item_known m uid item x s {ys} w f e c =
    let (fs, done) = store_update_lem m uid item x (with_items ys s) c in
    (fs, ground (arith, save_file_lem m (record (with_items ys s) { files = fs }) w))

-- Where the store, and the file for new data, can be written, `update_item` of a known uid succeeds:
-- that uid then finds its item with the update's traffic data and time (also where these are
-- missing) and, if there was data, a file (its own, the update's, or one named after the uid), and the
-- rest as it was; every other uid finds what it found,
-- and `profiles.yaml` holds what is in memory, without the items' data.
pub update_item-get_item :
    (m : Machine) (uid j : String) (item x : PrfItem) (s : Store)
    → Writable m s
    → CanStore m uid item x
    → get_item uid s.profiles ≡ ok x
    → let (r, s') = update_item m uid item s in
      (r ≡ ok tt)
      × ((y : PrfItem) × Updated uid item x y
          × (get_item j s'.profiles ≡ (if j == uid then ok y else get_item j s.profiles)))
      × (s'.stored ≡ some (serialized s'.profiles))
unfolding get_item
update_item-get_item m uid j item x s w c g =
    let xs = items_or_empty s.profiles.items in
    elim (modify_first-finds uid (updated_item uid item) xs) [
      | inl (a, f) ↦ absurd (ground arith)
      | inr (ys, y, a, f) ↦
          let same =
            find_item-modify_first uid j (updated_item uid item) xs {ys = ys}
              (updated_item-uid uid item) a in
          let known : find_item uid xs ≡ some x = ground arith in
          let (fs, done) = update_item_known m uid item x s {ys = ys} w known a c in
          rw done (
            refl,
            (
              updated_item uid item x,
              updated_item-Updated uid item x,
              ground (arith, eq_iff j uid),
            ),
            refl,
          )
    ]

-- The data of a new item, if it has any, comes with a file name that can be written to.
abbrev pub CanCreate : Machine → PrfItem → Type 0
CanCreate m item =
    (item.file_data ≡ none)
    ⊎ ((file path : String) × (item.file ≡ some file)
        × (m.resolve file ≡ some path)
        × (m.can_write path ≡ true))

-- ===== src/Config/Profiles/Store.antt =====
-- The store that the methods of src-tauri/src/config/profiles.rs work on, and their monad: the
-- profiles in memory, what `profiles.yaml` holds, the files of the profiles folder, and the flag
-- that blocks writing. A method that fails keeps the changes made before the failure.
use clash_verge_buty.Config.Profiles.Item.{PrfItem}
use clash_verge_buty.Prelude.{
  ℕ, String, Bool, true, false, Option, none, some, List, [], ◌∷◌, ◌==◌, eq_string, if◌then◌else◌,
}

pub record IProfiles : Type 0 where
  pub current : Option String
  pub chain : Option (List String)
  pub items : Option (List PrfItem)

unfoldable pub template : IProfiles
template = record { current = none; chain = none; items = some [] }

pub data Error : Type 0 where
  uid_null file_null bad_file_name write_failed save_blocked save_failed item_missing : Error
  -- The thread panics.
  panicked : Error
  global_script_fixed : Error

pub data Result {ℓ} (A : Type ℓ) : Type ℓ where
  ok : A → Result A
  err : Error → Result A

-- The profiles folder: path and content.
abbrev pub Files : Type 0
Files = List (String × String)

unfoldable pub exists_file : String → Files → Bool
exists_file path [] = false
exists_file path ((p, c) ∷ fs) = if p == path then true else exists_file path fs

unfoldable pub without_file : String → Files → Files
without_file path [] = []
without_file path ((p, c) ∷ fs) =
    let rest = without_file path fs in if p == path then rest else (p, c) ∷ rest

pub record Store : Type 0 where
  pub profiles : IProfiles
  pub stored : Option IProfiles
  pub files : Files
  pub blocked : Bool

-- What the machine answers while one method runs: the path of a file name
-- (`help::resolve_profile_path`), whether a write to a path succeeds, whether a file can be
-- removed, whether `profiles.yaml` can be written, and the time.
pub record Machine : Type 0 where
  pub resolve : String → Option String
  pub can_write : String → Bool
  pub can_remove : String → Bool
  pub can_save : Bool
  pub now : ℕ
  pub script_template : String

abbrev pub Method {ℓ} : Type ℓ → Type ℓ
Method A = Store → Result A × Store

infixl 5 ◌>>=◌ ◌>>◌
abbrev pub ◌>>=◌ {ℓ κ} : {A : Type ℓ} {B : Type κ} → Method A → (A → Method B) → Method B
◌>>=◌ m f s = let (r, s') = m s in elim r [ ok a ↦ f a s' | err e ↦ (err e, s') ]

abbrev pub ◌>>◌ {ℓ κ} : {A : Type ℓ} {B : Type κ} → Method A → Method B → Method B
◌>>◌ m k s = let (r, s') = m s in elim r [ ok a ↦ k s' | err e ↦ (err e, s') ]

abbrev pub pure {ℓ} : {A : Type ℓ} → A → Method A
pure a s = (ok a, s)

abbrev pub fail {ℓ} : {A : Type ℓ} → Error → Method A
fail e s = (err e, s)

-- Replaces the profiles in memory.
abbrev pub put_profiles : IProfiles → Method (Unit {0})
put_profiles p s = (ok tt, record s { profiles = p })

abbrev pub put_items : List PrfItem → Method (Unit {0})
put_items xs s = (ok tt, record s { profiles = record s.profiles { items = some xs } })

abbrev pub items_or_empty : Option (List PrfItem) → List PrfItem
items_or_empty none = []
items_or_empty (some xs) = xs

-- What serde writes: all but the data of the items, which it skips.
abbrev without_data : List PrfItem → List PrfItem
without_data [] = []
without_data (item ∷ items) = record item { file_data = none } ∷ without_data items

abbrev serialized_items : Option (List PrfItem) → Option (List PrfItem)
serialized_items none = none
serialized_items (some items) = some (without_data items)

unfoldable pub serialized : IProfiles → IProfiles
serialized p = record p { items = serialized_items p.items }

-- The store with the items replaced in memory, and then saved.
abbrev pub with_items : List PrfItem → Store → Store
with_items xs s = record s { profiles = record s.profiles { items = some xs } }

abbrev pub saved : Store → Store
saved s = record s { stored = some (serialized s.profiles) }

module _ (m : Machine) where
  unfoldable pub save_file : Method (Unit {0})
  save_file s =
      if s.blocked
      then (err save_blocked, s)
      else if m.can_save
      then (ok tt, record s { stored = some (serialized s.profiles) })
      else (err save_failed, s)

  -- `help::write_file_atomic`: on failure the file is as it was.
  unfoldable pub write_file : String → String → Method (Unit {0})
  unfolding without_file
  write_file path content s =
      if m.can_write path
      then (ok tt, record s { files = (path, content) ∷ without_file path s.files })
      else (err write_failed, s)

  unfoldable pub resolve_path : String → Method String
  resolve_path file s = elim (m.resolve file) [
    | none ↦ (err bad_file_name, s)
    | some path ↦ (ok path, s)
  ]

  -- `if path.exists() { let _ = fs::remove_file(path); }`
  unfoldable pub remove_file : String → Method (Unit {0})
  unfolding without_file exists_file
  remove_file path s =
      if exists_file path s.files
      then if m.can_remove path
        then (ok tt, record s { files = without_file path s.files })
        else (ok tt, s)
      else (ok tt, s)

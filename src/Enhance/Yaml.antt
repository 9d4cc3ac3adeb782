-- ===== src/Enhance/Yaml.antt =====
-- The values and mappings of the crate `serde_yaml`, as far as src-tauri/src/enhance uses them: the
-- operations that the code calls and what its documentation promises of them.
use clash_verge_buty.Prelude.{◌≡◌, ◌≢◌, String, Bool, Option, none, some, List, ◌∷◌, ◌++◌}

pub record Yaml : Type 1 where
  pub Value : Type 0
  pub Mapping : Type 0
  pub from_str : String → Value
  pub from_bool : Bool → Value
  pub from_sequence : List Value → Value
  pub from_mapping : Mapping → Value
  pub as_str : Value → Option String
  pub as_bool : Value → Option Bool
  pub as_sequence : Value → Option (List Value)
  pub as_mapping : Value → Option Mapping
  pub empty : Mapping
  pub is_empty : Mapping → Bool
  pub get : Value → Mapping → Option Value
  pub insert : Value → Value → Mapping → Mapping
  pub remove : Value → Mapping → Mapping
  pub entries : Mapping → List (Value × Value)
  pub keys : Mapping → List Value
  pub extend : Mapping → Mapping → Mapping
  pub as_str-from_str : (s : String) → as_str (from_str s) ≡ some s
  pub as_bool-from_bool : (b : Bool) → as_bool (from_bool b) ≡ some b
  pub as_sequence-from_sequence : (vs : List Value) → as_sequence (from_sequence vs) ≡ some vs
  pub as_mapping-from_mapping : (m : Mapping) → as_mapping (from_mapping m) ≡ some m
  pub get-empty : (k : Value) → get k empty ≡ none
  pub get-insert :
      (s : String) (v : Value) (m : Mapping) → get (from_str s) (insert (from_str s) v m) ≡ some v
  pub get-insert_other :
      (s t : String) (v : Value) (m : Mapping)
      → s ≢ t
      → get (from_str t) (insert (from_str s) v m) ≡ get (from_str t) m
  pub get-remove : (s : String) (m : Mapping) → get (from_str s) (remove (from_str s) m) ≡ none
  pub keys-get :
      (s : String) (v : Value) (m : Mapping)
      → get (from_str s) m ≡ some v
      → (xs : List Value) × (ys : List Value) × (keys m ≡ xs ++ from_str s ∷ ys)

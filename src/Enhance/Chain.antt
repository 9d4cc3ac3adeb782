-- ===== src/Enhance/Chain.antt =====
-- src-tauri/src/enhance/chain.rs: the items of the chain and the scripts that are built in, and
-- `use_script` of script.rs. The script engine (the crate `rquickjs`) is a parameter.
use clash_verge_buty.Prelude.{
  String, Bool, true, Option, none, some, List, [], ◌∷◌, ◌++◌, ◌==◌, eq_string, if◌then◌else◌,
}
use clash_verge_buty.Config.Profiles.Item.{PrfItem}
use clash_verge_buty.Enhance.Yaml.{Yaml}
use clash_verge_buty.Enhance.Field.{use_lowercase}

-- The operator `?` on an `Option`.
infixl 5 ◌>>=◌
abbrev pub ◌>>=◌ {ℓ κ} : {A : Type ℓ} {B : Type κ} → Option A → (A → Option B) → Option B
none >>= f = none
some a >>= f = f a

pub data ChainSupport : Type 0 where
  clash mihomo mihomo_alpha any_core : ChainSupport

unfoldable pub is_support : ChainSupport → Option String → Bool
is_support support none = true
is_support any_core (some core) = true
is_support clash (some core) = core == "clash"
is_support mihomo (some core) = core == "mihomo"
is_support mihomo_alpha (some core) = core == "mihomo-alpha"

abbrev pub Log : Type 0
Log = List (String × String)

-- What the engine answers: that it could not start, or what was logged and the object or the error.
pub data Answer (A : Type 0) : Type 0 where
  unavailable : String → Answer A
  failed : Log → String → Answer A
  returned : Log → A → Answer A

module _ (y : Yaml) where
  open y use {Mapping}

  pub data ChainType : Type 0 where
    merge : Mapping → ChainType
    script : String → ChainType

  pub record ChainItem : Type 0 where
    pub uid : String
    pub data_of : ChainType

  abbrev pub Engine : Type 0
  Engine = String → Mapping → String → Answer Mapping

  pub data Outcome : Type 0 where
    ok : Mapping → Log → Outcome
    err : String → Outcome

  -- An error of the script itself is logged, and leaves the configuration as it was.
  abbrev answered : Mapping → Answer Mapping → Outcome
  answered config (unavailable message) = err message
  answered config (failed logs message) = ok config (logs ++ ("exception", message) ∷ [])
  answered config (returned logs m) = ok (use_lowercase y m) logs

  unfoldable pub use_script : Engine → String → Mapping → String → Outcome
  unfolding use_lowercase
  use_script engine code config profile_name =
      answered config (engine code (use_lowercase y config) profile_name)

  -- The files of the profiles: how names resolve, and what is read from a path.
  pub record Disk : Type 0 where
    pub resolve : String → Option String
    pub exists_file : String → Bool
    pub read_text : String → Option String
    pub read_merge_mapping : String → Option Mapping

  abbrev uid_or_empty : Option String → String
  uid_or_empty none = ""
  uid_or_empty (some uid) = uid

  abbrev item_data : Disk → String → String → Option ChainType
  item_data disk itype path =
      if itype == "script"
      then elim (disk.read_text path) [ none ↦ none | some text ↦ some (script text) ]
      else if itype == "merge"
      then elim (disk.read_merge_mapping path) [ none ↦ none | some m ↦ some (merge m) ]
      else none

  -- `From<&PrfItem> for Option<ChainItem>`
  unfoldable pub chain_item : Disk → PrfItem → Option ChainItem
  chain_item disk item = do
    itype ← item.itype
    file ← item.file
    path ← disk.resolve file
    data_of ← if disk.exists_file path then item_data disk itype path else none
    some (record { uid = uid_or_empty item.uid; data_of = data_of })

  -- The texts are those of the files under src-tauri/src/enhance/builtin.
  unfoldable pub builtin : String → String → List (ChainSupport × ChainItem)
  builtin meta_guard hy_alpn =
      let guard : ChainItem = record { uid = "verge_meta_guard"; data_of = script meta_guard } in
      let alpn : ChainItem = record { uid = "verge_hy_alpn"; data_of = script hy_alpn } in
      (mihomo, alpn) ∷ (mihomo, guard) ∷ (mihomo_alpha, alpn) ∷ (mihomo_alpha, guard) ∷ []

-- ===== src/Enhance/Pipeline.antt =====
-- `enhance` of src-tauri/src/enhance/mod.rs: the current profile, the global script, the chain, the
-- settings of the core, the built-in scripts, and last the sections that the program keeps control of.
use clash_verge_buty.Prelude.Assoc.{Assoc, insert as insert_log}
use clash_verge_buty.Prelude.{
  String, Bool, true, false, Option, none, some, List, [], ◌∷◌, ◌++◌, ◌==◌, ◌!=◌, eq_string,
  eq_option, if◌then◌else◌, retain,
}
use clash_verge_buty.Config.Profiles.Item.{PrfItem, global_script_uid}
use clash_verge_buty.Config.Profiles.Store.{IProfiles, items_or_empty}
use clash_verge_buty.Config.Profiles.Lookup.{find_item}
use clash_verge_buty.Enhance.Yaml.{Yaml}
use clash_verge_buty.Enhance.Tun.{is_some, mapping_of, use_tun}
use clash_verge_buty.Enhance.Field.{use_keys, use_sort}
use clash_verge_buty.Enhance.Merge.{use_merge}
use clash_verge_buty.Enhance.Chain.{
  ChainType, ChainItem, merge, script, Log, Engine, Outcome, ok, err, Disk, ◌>>=◌, use_script,
  chain_item, builtin, is_support, ChainSupport,
}

abbrev or_true : Option Bool → Bool
or_true none = true
or_true (some b) = b

abbrev pub or_false : Option Bool → Bool
or_false none = false
or_false (some b) = b

-- What `enhance` reads of the settings.
pub record Settings : Type 0 where
  pub clash_core : Option String
  pub enable_tun_mode : Option Bool
  pub enable_builtin_enhanced : Option Bool

-- The files that the build includes.
pub record Scripts : Type 0 where
  pub meta_guard : String
  pub hy_alpn : String

module _ (y : Yaml) where
  open y use {
    Value, Mapping, from_str, from_bool, from_mapping, as_str, as_bool, as_mapping, empty, get,
    insert, entries,
  }

  -- What the steps hand on.
  pub record Progress : Type 0 where
    pub config : Mapping
    pub exists_keys : List String
    pub result_map : Assoc String Log

  unfoldable pub apply_ipv6_to_dns : Mapping → Mapping
  unfolding mapping_of
  apply_ipv6_to_dns config =
      let ipv6_enabled =
        or_false (elim (get (from_str "ipv6") config) [ none ↦ none | some v ↦ as_bool v ]) in
      insert (from_str "dns")
        (from_mapping (
          insert (from_str "ipv6") (from_bool ipv6_enabled)
            (mapping_of y empty (get (from_str "dns") config))))
        config

  override_core : List (Value × Value) → Mapping → Mapping
  override_core [] config = config
  override_core ((key, value) ∷ rest) config =
      override_core rest (if as_str key == some "tun" then config else insert key value config)

  module _ (engine : Engine y) (profile_name : String) where
    ran_script : String → Outcome y → Progress → Progress
    unfolding use_keys
    ran_script uid (ok config logs) s = record {
      config = config;
      exists_keys = s.exists_keys ++ use_keys y config;
      result_map = insert_log uid logs s.result_map;
    }
    ran_script uid (err message) s = record s {
      result_map = insert_log uid (("exception", message) ∷ []) s.result_map;
    }

    run_script : String → String → Progress → Progress
    unfolding ran_script use_script
    run_script uid code s = ran_script uid (use_script y engine code s.config profile_name) s

    run_data : String → ChainType y → Progress → Progress
    unfolding run_script use_merge use_keys
    run_data uid (merge m) s = record s {
      config = use_merge y m s.config;
      exists_keys = s.exists_keys ++ use_keys y m;
    }
    run_data uid (script code) s = run_script uid code s

    unfoldable pub run_chain : List (ChainItem y) → Progress → Progress
    unfolding run_data
    run_chain [] s = s
    run_chain (item ∷ rest) s = run_chain rest (run_data item.uid item.data_of s)

    run_global : Option (ChainItem y) → Progress → Progress
    unfolding run_script
    run_global none s = s
    run_global (some item) s = elim item.data_of [
      | merge m ↦ s
      | script code ↦ run_script item.uid code s
    ]

    -- A built-in script that fails changes nothing.
    run_builtin : ChainType y → Mapping → Mapping
    unfolding use_script
    run_builtin (merge m) config = config
    run_builtin (script code) config = elim (use_script y engine code config profile_name) [
      | ok m logs ↦ m
      | err message ↦ config
    ]

    unfoldable pub run_builtins :
        Option String → List (ChainSupport × ChainItem y) → Mapping → Mapping
    unfolding run_builtin
    run_builtins core [] config = config
    run_builtins core ((support, item) ∷ rest) config =
        run_builtins core rest
          (if is_support support core then run_builtin item.data_of config else config)

  -- The end of `enhance`, from the settings of the core on.
  unfoldable pub finish :
      Engine y
      → (List String → List String)
      → Scripts
      → Settings
      → Mapping
      → String
      → Mapping
      → Mapping
  unfolding override_core apply_ipv6_to_dns run_builtins use_tun use_sort mapping_of
  finish engine hashed scripts settings clash_config profile_name config =
      let source_has_tun = is_some (get (from_str "tun") config) in
      let clash_tun_default = mapping_of y empty (get (from_str "tun") clash_config) in
      let overridden = override_core (entries clash_config) config in
      let built =
        if or_true settings.enable_builtin_enhanced
        then run_builtins engine profile_name settings.clash_core
            (builtin y scripts.meta_guard scripts.hy_alpn) overridden
        else overridden in
      use_sort y hashed (
        apply_ipv6_to_dns
          (use_tun y built (or_false settings.enable_tun_mode) source_has_tun clash_tun_default))

  -- `IProfiles::current_mapping` of config/profiles.rs; `none` is an error.
  unfoldable pub current_mapping : Disk y → IProfiles → Option Mapping
  current_mapping disk p = elim p.current [
    | none ↦ some empty
    | some uid ↦ elim p.items [
      | none ↦ some empty
      | some xs ↦ do
        item ← find_item uid xs
        file ← item.file
        path ← disk.resolve file
        disk.read_merge_mapping path
    ]
  ]

  abbrev name_of : Option PrfItem → String
  name_of none = ""
  name_of (some item) = elim item.name [ none ↦ "" | some name ↦ name ]

  abbrev items_for : Disk y → List PrfItem → List String → List (ChainItem y)
  items_for disk xs [] = []
  items_for disk xs (uid ∷ uids) =
      let rest = items_for disk xs uids in
      elim (do item ← find_item uid xs; chain_item y disk item) [
        | none ↦ rest
        | some item ↦ item ∷ rest
      ]

  abbrev mapping_or_empty : Option Mapping → Mapping
  mapping_or_empty none = empty
  mapping_or_empty (some m) = m

  unfoldable pub enhance :
      Engine y
      → (List String → List String)
      → Scripts
      → Settings
      → Mapping
      → Disk y
      → IProfiles
      → Mapping × (List String × Assoc String Log)
  unfolding current_mapping run_global run_chain use_keys finish chain_item
  enhance engine hashed scripts settings clash_config disk p =
      let xs = items_or_empty p.items in
      let profile_name = name_of (do uid ← p.current; find_item uid xs) in
      let current = mapping_or_empty (current_mapping disk p) in
      let global = (do item ← find_item global_script_uid xs; chain_item y disk item) in
      let uids : List String = elim p.chain [ none ↦ [] | some us ↦ us ] in
      let chain = items_for disk xs (retain (λ uid. uid != global_script_uid) uids) in
      let start : Progress = record {
        config = current;
        exists_keys = use_keys y current;
        result_map = [];
      } in
      let done =
        run_chain engine profile_name chain (run_global engine profile_name global start) in
      (
        finish engine hashed scripts settings clash_config profile_name done.config,
        (hashed done.exists_keys, done.result_map),
      )

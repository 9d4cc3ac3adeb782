-- ===== src/Enhance/Merge.antt =====
-- src-tauri/src/enhance/merge.rs: a merge's keys over a configuration, and its lists and mappings
-- before and after those of the configuration.
use clash_verge_buty.Prelude.{
  String, Option, none, some, List, [], ◌∷◌, ◌++◌, eq_string, if◌then◌else◌, contains,
}
use clash_verge_buty.Enhance.Yaml.{Yaml}
use clash_verge_buty.Enhance.Tun.{mapping_of}
use clash_verge_buty.Enhance.Field.{use_filter, use_lowercase}
use Prim.Native.String

abbrev pub merge_fields : List String
merge_fields =
    "prepend-rules" ∷ "append-rules" ∷ "prepend-rule-providers" ∷ "append-rule-providers"
    ∷ "prepend-proxies" ∷ "append-proxies" ∷ "prepend-proxy-providers" ∷ "append-proxy-providers"
    ∷ "prepend-proxy-groups" ∷ "append-proxy-groups" ∷ []

module _ (y : Yaml) where
  open y use {
    Value, Mapping, from_str, from_sequence, from_mapping, as_str, as_sequence, as_mapping, empty,
    is_empty, get, insert, entries, extend,
  }

  abbrev pub text_or_empty : Option String → String
  text_or_empty none = ""
  text_or_empty (some s) = s

  abbrev pub override_entries : List (Value × Value) → Mapping → Mapping
  override_entries [] config = config
  override_entries ((key, value) ∷ rest) config = override_entries rest (
      if contains merge_fields (text_or_empty (as_str key))
      then config
      else insert key value config)

  abbrev before : Option Value → Mapping → Mapping
  before none map = map
  before (some v) map = elim (as_mapping v) [ none ↦ map | some pre ↦ extend pre map ]

  abbrev after : Option Value → Mapping → Mapping
  after none map = map
  after (some v) map = elim (as_mapping v) [ none ↦ map | some post ↦ extend map post ]

  unfoldable pub put_mapping : String → Mapping → Mapping → Mapping
  put_mapping key map config =
      if is_empty map then config else insert (from_str key) (from_mapping map) config

  -- One of the mappings of providers.
  unfoldable pub merge_mapping : Mapping → String → Mapping → Mapping
  unfolding mapping_of
  merge_mapping merge key config =
      put_mapping key
        (after (get (from_str (String.◌++◌ "append-" key)) merge) (
          before (get (from_str (String.◌++◌ "prepend-" key)) merge)
            (mapping_of y empty (get (from_str key) config))))
        config

  abbrev pub list_or_empty : Option (List Value) → List Value
  list_or_empty none = []
  list_or_empty (some vs) = vs

  abbrev pub items_of : Option Value → List Value
  items_of none = []
  items_of (some v) = list_or_empty (as_sequence v)

  -- The items before, of the configuration, and after.
  abbrev pub merged_items : Mapping → String → Mapping → List Value
  merged_items merge key config =
      items_of (get (from_str (String.◌++◌ "prepend-" key)) merge)
      ++ (items_of (get (from_str key) config)
          ++ items_of (get (from_str (String.◌++◌ "append-" key)) merge))

  unfoldable pub put_list : String → List Value → Mapping → Mapping
  put_list key [] config = config
  put_list key (x ∷ xs) config = insert (from_str key) (from_sequence (x ∷ xs)) config

  -- One of the lists.
  unfoldable pub merge_list : Mapping → String → Mapping → Mapping
  merge_list merge key config = put_list key (merged_items merge key config) config

  -- The configuration with the merge's other keys over it.
  unfoldable pub overridden : Mapping → Mapping → Mapping
  unfolding use_lowercase
  overridden merge config = override_entries (entries (use_lowercase y merge)) config

  unfoldable pub use_merge : Mapping → Mapping → Mapping
  use_merge merge config =
      let fields = use_filter y merge merge_fields in
      let providers =
        merge_mapping fields "proxy-providers"
          (merge_mapping fields "rule-providers" (overridden merge config)) in
      merge_list fields "proxy-groups"
        (merge_list fields "proxies" (merge_list fields "rules" providers))

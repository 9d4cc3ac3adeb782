-- ===== src/Enhance/Tests.antt =====
-- Tests of src-tauri/src/enhance, and its theorems at concrete inputs.
pub mod Trees
use clash_verge_buty.Prelude.{
  ◌≡◌, ◌≢◌, refl, ap, String, Bool, true, false, Option, none, some, List, [], ◌∷◌, ◌++◌, ◌==◌,
  eq_string, eq_iff, if◌then◌else◌, arith, Bool-cases, inl, inr, ◌⊎◌,
}
use clash_verge_buty.Config.Profiles.Store.{IProfiles}
use clash_verge_buty.Config.Profiles.Item.{PrfItem, or_else}
use clash_verge_buty.Enhance.Yaml.{Yaml}
use clash_verge_buty.Enhance.Chain.{Engine, Disk, unavailable}
use clash_verge_buty.Enhance.Pipeline.{Settings, Scripts, enhance, or_false}
use clash_verge_buty.Enhance.Field.{use_sort, make_ascii_lowercase}
use clash_verge_buty.Enhance.Sorting.{KeepsElements, use_sort-get}
use clash_verge_buty.Enhance.Merge.{items_of, use_merge}
use clash_verge_buty.Enhance.Merging.{Keyed, last_value, use_merge-rules}
use clash_verge_buty.Enhance.Sections.{flag, bool_of}
use clash_verge_buty.Enhance.Toggle.{enhance-tun_on, enhance-tun_off, enhance-ipv6}
use clash_verge_buty.Enhance.Tests.Trees.{
  Tree, Fields, text, truth, sequence, mapping, nil, field, tree_yaml, pairs, find_field, text_of,
  amount,
}

abbrev no_scripts : Engine tree_yaml
no_scripts code config profile_name = unavailable "no engine"

abbrev scripts : Scripts
scripts = record { meta_guard = "guard"; hy_alpn = "alpn" }

abbrev switched : Option Bool → Settings
switched on = record {
  clash_core = some "mihomo";
  enable_tun_mode = on;
  enable_builtin_enhanced = none;
}

-- A profile that turns TUN on, and the settings of the core, which turn it off.
abbrev profile_file : Fields
profile_file =
    field "rules" (sequence nil)
      (field "tun" (mapping (field "enable" (truth true) nil)) (field "x" (text "y") nil))

abbrev core_settings : Fields
core_settings =
    field "tun" (mapping (field "enable" (truth false) nil)) (field "ipv6" (truth true) nil)

abbrev disk : Disk tree_yaml
disk = record {
  resolve = λ file. some file;
  exists_file = λ path. true;
  read_text = λ path. none;
  read_merge_mapping = λ path. some profile_file;
}

abbrev one_item : PrfItem
one_item = record {
  uid = some "a";
  itype = some "remote";
  name = some "A";
  file = some "a.yaml";
  desc = none;
  url = none;
  selected = none;
  extra = none;
  updated = none;
  option = none;
  file_data = none;
}

abbrev profiles : IProfiles
profiles = record { current = some "a"; chain = none; items = some (one_item ∷ []) }

abbrev in_order : List String → List String
in_order xs = xs

in_order_keeps : KeepsElements in_order
in_order_keeps xs s = refl

use_sort-get_example :
    tree_yaml.get (text "x") (use_sort tree_yaml in_order profile_file) ≡ some (text "y")
use_sort-get_example = use_sort-get tree_yaml in_order profile_file "x" in_order_keeps

abbrev final : Option Bool → Fields
final on =
    (enhance tree_yaml no_scripts in_order scripts (switched on) core_settings disk profiles).0

enhance-tun_on_example :
    (flag tree_yaml "tun" "enable" (final (some true)) ≡ some true)
    × (flag tree_yaml "dns" "enable" (final (some true)) ≡ some true)
enhance-tun_on_example =
    enhance-tun_on tree_yaml no_scripts in_order scripts (switched (some true)) core_settings disk
      profiles in_order_keeps refl

enhance-tun_off_example :
    (flag tree_yaml "tun" "enable" (final none) ≡ some false)
    ⊎ (tree_yaml.get (text "tun") (final none) ≡ none)
enhance-tun_off_example =
    enhance-tun_off tree_yaml no_scripts in_order scripts (switched none) core_settings disk
      profiles in_order_keeps refl

enhance-ipv6_example :
    flag tree_yaml "dns" "ipv6" (final none)
    ≡ some (or_false (bool_of tree_yaml (tree_yaml.get (text "ipv6") (final none))))
enhance-ipv6_example =
    enhance-ipv6 tree_yaml no_scripts in_order scripts (switched none) core_settings disk profiles
      in_order_keeps

abbrev merge_file : Fields
merge_file =
    field "prepend-rules" (sequence (field "" (text "first") nil))
      (field "append-rules" (sequence (field "" (text "last") nil)) nil)

abbrev with_rules : Fields
with_rules = field "rules" (sequence (field "" (text "own") nil)) nil

abbrev listed : String → Fields → List Tree
listed key fs = items_of tree_yaml (tree_yaml.get (text key) fs)

last_value-append :
    (s k : String) (v : Tree) (es : List (Tree × Tree))
    → last_value tree_yaml (λ j. j) s (es ++ (text k, v) ∷ [])
      ≡ (if k == s then some v else last_value tree_yaml (λ j. j) s es)
last_value-append s k v [] = ground arith
last_value-append s k v ((key, w) ∷ es) = ground (arith, last_value-append s k v es)

pairs-find :
    (s : String) (fs : Fields) → last_value tree_yaml (λ j. j) s (pairs fs) ≡ find_field s fs
pairs-find s nil = refl
pairs-find s (field k v fs) = ground (arith, last_value-append s k v (pairs fs), pairs-find s fs)

tree_text : (k : Tree) (s : String) → text_of k ≡ some s → k ≡ text s
tree_text (text t) s e = ground arith
tree_text (truth b) s e = absurd (ground arith)
tree_text (amount n) s e = absurd (ground arith)
tree_text (sequence fs) s e = absurd (ground arith)
tree_text (mapping fs) s e = absurd (ground arith)

tree_other :
    (k v : Tree) (s : String) (fs : Fields)
    → text_of k ≡ none
    → find_field s (tree_yaml.insert k v fs) ≡ find_field s fs
tree_other (text t) v s fs e = absurd (ground arith)
tree_other (truth b) v s fs e = refl
tree_other (amount n) v s fs e = refl
tree_other (sequence more) v s fs e = refl
tree_other (mapping more) v s fs e = refl

tree_keyed : Keyed tree_yaml
tree_keyed = record { entries-get = pairs-find; text-key = tree_text; other-key = tree_other }

use_merge-rules_example :
    listed "rules" (use_merge tree_yaml merge_file with_rules)
    ≡ listed "prepend-rules" merge_file
      ++ (items_of tree_yaml (
            or_else
              (last_value tree_yaml make_ascii_lowercase "rules" (pairs merge_file))
              (find_field "rules" with_rules))
          ++ listed "append-rules" merge_file)
use_merge-rules_example = use_merge-rules tree_yaml tree_keyed merge_file with_rules

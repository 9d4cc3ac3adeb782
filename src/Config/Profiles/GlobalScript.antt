-- ===== src/Config/Profiles/GlobalScript.antt =====
-- The global script entry of src-tauri/src/config/profiles.rs: every method but `reorder` keeps it.
use clash_verge_buty.Config.Profiles.Item.{PrfItem, global_script_uid}
use clash_verge_buty.Config.Profiles.Store.{IProfiles, Store, Machine, items_or_empty}
use clash_verge_buty.Config.Profiles.Lookup.{find_item}
use clash_verge_buty.Config.Profiles.Found.{find_item-modify_first, find_item-append}
use clash_verge_buty.Config.Profiles.Update.{updated_item-uid, patched_item-uid}
use clash_verge_buty.Config.Profiles.Delete.{left-find_item}
use clash_verge_buty.Config.Profiles.Methods.{
  patch_config, append_item, patch_item, update_item, delete_item,
}
use clash_verge_buty.Config.Profiles.Changes.{
  patched_item, updated_item, update_file, needs_repair, not_global,
}
use clash_verge_buty.Prelude.{
  ◌≡◌, ◌≢◌, sym, String, Option, none, some, List, [], ◌∷◌, arith, inl, inr, Option-cases, Bool,
  false, true, not, eq_string, eq_option, eq_nat, eq_iff, contains, retain, contains-retain,
}
use clash_verge_buty.Config.Profiles.Effects.{
  append_item-profiles, patch_item-profiles, update_item-profiles, delete_item-profiles,
}

-- The entry found under the global uid is the script with its fixed type, name, text and file.
abbrev pub is_fixed : Option PrfItem → Bool
is_fixed none = false
is_fixed (some item) = not (needs_repair item)

abbrev pub chain_is_clear : Option (List String) → Bool
chain_is_clear none = true
chain_is_clear (some uids) = not (contains uids global_script_uid)

pub record Guarded (p : IProfiles) : Type 0 where
  pub script : is_fixed (find_item global_script_uid (items_or_empty p.items)) ≡ true
  pub chain : chain_is_clear p.chain ≡ true

pub global_not_kept :
    (uids : List String) → contains (retain not_global uids) global_script_uid ≡ false
global_not_kept uids = ground (
  arith,
  contains-retain not_global uids global_script_uid,
  eq_iff global_script_uid global_script_uid,
)

patch_config-Guarded :
    (patch : IProfiles) (s : Store) → Guarded s.profiles → Guarded (patch_config patch s).1.profiles
unfolding patch_config
patch_config-Guarded patch s g = elim (Option-cases patch.chain) [
  | inl e ↦ ground arith
  | inr (uids, e) ↦ ground (arith, global_not_kept uids)
]

append_item-Guarded :
    (m : Machine) (item : PrfItem) (s : Store)
    → Guarded s.profiles
    → Guarded (append_item m item s).1.profiles
append_item-Guarded m item s g =
    let kept = record item { file_data = none } in
    let same = find_item-append global_script_uid (items_or_empty s.profiles.items) kept in
    elim (append_item-profiles m item s) [
      | inl e ↦ rw e g
      | inr e ↦ rw e (record { script = ground (arith, g.script, same); chain = g.chain })
    ]

patch_item-Guarded :
    (m : Machine) (uid : String) (item : PrfItem) (s : Store)
    → Guarded s.profiles
    → Guarded (patch_item m uid item s).1.profiles
patch_item-Guarded m uid item s g = elim (patch_item-profiles m uid item s) [
  | inl e ↦ rw e g
  | inr (inl e) ↦ rw e (record { script = g.script; chain = g.chain })
  | inr (inr (ys, d, a, e)) ↦
      let same =
        find_item-modify_first uid global_script_uid (patched_item item)
          (items_or_empty s.profiles.items) {ys = ys} (patched_item-uid item) a in
      rw e (record {
        script = ground (arith, g.script, same, eq_iff global_script_uid uid);
        chain = g.chain;
      })
]

updated_item-fixed :
    (uid : String) (item x : PrfItem)
    → needs_repair x ≡ false
    → needs_repair (updated_item uid item x) ≡ false
unfolding needs_repair updated_item update_file
updated_item-fixed uid item x h = ground arith

update_item-Guarded :
    (m : Machine) (uid : String) (item : PrfItem) (s : Store)
    → Guarded s.profiles
    → Guarded (update_item m uid item s).1.profiles
update_item-Guarded m uid item s g = elim (update_item-profiles m uid item s) [
  | inl e ↦ rw e (record { script = g.script; chain = g.chain })
  | inr (ys, a, e) ↦
      let xs = items_or_empty s.profiles.items in
      let same =
        find_item-modify_first uid global_script_uid (updated_item uid item) xs {ys = ys}
          (updated_item-uid uid item) a in
      rw e (record {
        script = elim (Option-cases (find_item global_script_uid xs)) [
          | inl f ↦ ground (arith, g.script)
          | inr (x, f) ↦ ground (arith, g.script, same, updated_item-fixed uid item x)
        ];
        chain = g.chain;
      })
]

delete_item-Guarded :
    (m : Machine) (uid : String) (s : Store)
    → Guarded s.profiles
    → Guarded (delete_item m uid s).1.profiles
delete_item-Guarded m uid s g = elim (delete_item-profiles m uid s) [
  | inl e ↦ rw e g
  | inr (current, d, e) ↦
      let other : global_script_uid ≢ uid = λ q. d (sym q) in
      rw e (record {
        script = ground (arith, g.script, left-find_item uid global_script_uid s other);
        chain = g.chain;
      })
]

-- A call of one of the methods, `reorder` excepted.
pub data Call : Type 0 where
  patches_config : IProfiles → Call
  appends : PrfItem → Call
  patches updates : String → PrfItem → Call
  deletes : String → Call

-- The machine may answer otherwise at each call; a method that fails leaves what it has done.
unfoldable pub run : List (Machine × Call) → Store → Store
run [] s = s
run ((m, patches_config patch) ∷ calls) s = run calls (patch_config patch s).1
run ((m, appends item) ∷ calls) s = run calls (append_item m item s).1
run ((m, patches uid item) ∷ calls) s = run calls (patch_item m uid item s).1
run ((m, updates uid item) ∷ calls) s = run calls (update_item m uid item s).1
run ((m, deletes uid) ∷ calls) s = run calls (delete_item m uid s).1

-- Once the global script's entry is there with its fixed type, name, description and file, and the
-- chain does not name it, no sequence of calls of the methods (other than `reorder`), successful or
-- not, with any arguments, removes or changes these, nor puts it into the chain.
pub run-Guarded :
    (calls : List (Machine × Call)) (s : Store)
    → Guarded s.profiles
    → Guarded (run calls s).profiles
unfolding run
run-Guarded [] s g = g
run-Guarded ((m, patches_config patch) ∷ calls) s g =
    run-Guarded calls (patch_config patch s).1 (patch_config-Guarded patch s g)
run-Guarded ((m, appends item) ∷ calls) s g =
    run-Guarded calls (append_item m item s).1 (append_item-Guarded m item s g)
run-Guarded ((m, patches uid item) ∷ calls) s g =
    run-Guarded calls (patch_item m uid item s).1 (patch_item-Guarded m uid item s g)
run-Guarded ((m, updates uid item) ∷ calls) s g =
    run-Guarded calls (update_item m uid item s).1 (update_item-Guarded m uid item s g)
run-Guarded ((m, deletes uid) ∷ calls) s g =
    run-Guarded calls (delete_item m uid s).1 (delete_item-Guarded m uid s g)

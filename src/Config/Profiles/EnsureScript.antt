-- ===== src/Config/Profiles/EnsureScript.antt =====
-- `ensure_global_script` of src-tauri/src/config/profiles.rs establishes what the others keep.
use clash_verge_buty.Config.Profiles.Item.{
  PrfItem, global_script_uid, global_script_file, global_script,
}
use clash_verge_buty.Config.Profiles.Store.{
  IProfiles, Store, Machine, ok, items_or_empty, resolve_path, exists_file,
}
use clash_verge_buty.Config.Profiles.Lookup.{has_uid, find_item, modify_first}
use clash_verge_buty.Config.Profiles.Found.{find_item-modify_first, modify_first-finds}
use clash_verge_buty.Config.Profiles.Effects.{save_file-profiles, write_file-profiles}
use clash_verge_buty.Config.Profiles.GlobalScript.{
  Guarded, is_fixed, chain_is_clear, global_not_kept,
}
use clash_verge_buty.Config.Profiles.Methods.{ensure_global_script, write_script_if_missing}
use clash_verge_buty.Config.Profiles.Changes.{
  with_global_script, chain_without_global, repaired_script, needs_repair, not_global,
}
use clash_verge_buty.Prelude.{
  ℕ, ◌≡◌, refl, String, Option, none, some, List, [], ◌∷◌, arith, inl, inr, Option-cases, false,
  true, not, eq_string, eq_option, eq_nat, eq_iff, contains, retain,
}

repaired_script-fixed : (x : PrfItem) → needs_repair (repaired_script x) ≡ false
unfolding needs_repair repaired_script
repaired_script-fixed x = ground arith

repaired_script_same : (x : PrfItem) → needs_repair x ≡ false → repaired_script x ≡ x
unfolding needs_repair repaired_script
repaired_script_same x h = ground arith

repaired_script-uid : (x : PrfItem) → (repaired_script x).uid ≡ x.uid
unfolding repaired_script
repaired_script-uid x = refl

global_script-fixed :
    (now : ℕ)
    → (has_uid global_script_uid (global_script now) ≡ true)
      × (needs_repair (global_script now) ≡ false)
unfolding global_script needs_repair
global_script-fixed now = (refl, refl)

with_global_script-fixed :
    (now : ℕ) (xs : List PrfItem)
    → is_fixed (find_item global_script_uid (with_global_script now xs).0) ≡ true
unfolding with_global_script
with_global_script-fixed now xs = elim (modify_first-finds global_script_uid repaired_script xs) [
  | inl (a, f) ↦ ground (arith, global_script-fixed now, eq_iff global_script_uid global_script_uid)
  | inr (ys, x, a, f) ↦
      let same =
        find_item-modify_first global_script_uid global_script_uid repaired_script xs {ys = ys}
          repaired_script-uid a in
      ground (arith, same, repaired_script-fixed x, eq_iff global_script_uid global_script_uid)
]

modify_first_same :
    (uid : String) (xs : List PrfItem) (x : PrfItem)
    → find_item uid xs ≡ some x
    → needs_repair x ≡ false
    → modify_first uid repaired_script xs ≡ some xs
unfolding modify_first
modify_first_same uid [] x f h = cc
modify_first_same uid (y ∷ xs) x f h =
    ground (arith, repaired_script_same y, modify_first_same uid xs x)

retain_same :
    (uids : List String)
    → not (contains uids global_script_uid) ≡ true
    → retain not_global uids ≡ uids
retain_same [] h = refl
retain_same (u ∷ uids) h = ground (arith, retain_same uids)

chain_without_global-clear :
    (chain : Option (List String)) → chain_is_clear (chain_without_global chain).0 ≡ true
unfolding chain_without_global
chain_without_global-clear none = refl
chain_without_global-clear (some uids) = ground (arith, global_not_kept uids)

write_script-profiles :
    (m : Machine) (s : Store) → (write_script_if_missing m s).1.profiles ≡ s.profiles
unfolding write_script_if_missing resolve_path
write_script-profiles m s = elim (Option-cases (m.resolve global_script_file)) [
  | inl e ↦ ground arith
  | inr (path, e) ↦ ground (arith, write_file-profiles m path m.script_template s)
]

-- The profiles with the entry in place.
abbrev ensured : Machine → Store → IProfiles
ensured m s = record s.profiles {
  items = some (with_global_script m.now (items_or_empty s.profiles.items)).0;
  chain = (chain_without_global s.profiles.chain).0;
}

ensure_global_script-profiles :
    (m : Machine) (s : Store) → (ensure_global_script m s).1.profiles ≡ ensured m s
unfolding ensure_global_script
ensure_global_script-profiles m s =
    let placed = record s { profiles = ensured m s } in
    let written = (write_script_if_missing m placed).1 in
    ground (arith, write_script-profiles m placed, save_file-profiles m written)

-- Whatever the profiles were and whatever the machine answers, after `ensure_global_script` the
-- global script's entry is among the items with its fixed type, name, description and file, and the
-- chain does not name it; also where the method fails.
pub ensure_global_script-Guarded :
    (m : Machine) (s : Store) → Guarded (ensure_global_script m s).1.profiles
ensure_global_script-Guarded m s = rw (ensure_global_script-profiles m s) (record {
  script = with_global_script-fixed m.now (items_or_empty s.profiles.items);
  chain = chain_without_global-clear s.profiles.chain;
})

with_global_script_same :
    (now : ℕ) (xs : List PrfItem)
    → is_fixed (find_item global_script_uid xs) ≡ true
    → with_global_script now xs ≡ (xs, false)
unfolding with_global_script
with_global_script_same now xs h = elim (Option-cases (find_item global_script_uid xs)) [
  | inl e ↦ ground arith
  | inr (x, e) ↦ ground (arith, modify_first_same global_script_uid xs x e)
]

chain_without_global_same :
    (chain : Option (List String))
    → chain_is_clear chain ≡ true
    → chain_without_global chain ≡ (chain, false)
unfolding chain_without_global
chain_without_global_same none h = refl
chain_without_global_same (some uids) h = rw (retain_same uids h) (ground arith)

-- Where the entry is in place, the chain does not name it, and the script's file is there,
-- `ensure_global_script` changes nothing in memory or on disk, and writes nothing.
pub ensure_global_script_idempotent :
    (m : Machine) (s : Store) (xs : List PrfItem) (path : String)
    → Guarded s.profiles
    → s.profiles.items ≡ some xs
    → m.resolve global_script_file ≡ some path
    → exists_file path s.files ≡ true
    → ensure_global_script m s ≡ (ok tt, s)
unfolding ensure_global_script write_script_if_missing resolve_path
ensure_global_script_idempotent m s xs path g e r f =
    let items = with_global_script_same m.now (items_or_empty s.profiles.items) g.script in
    let chain = chain_without_global_same s.profiles.chain g.chain in ground arith

-- ===== src/Help/Tests.antt =====
-- Tests of src-tauri/src/utils/help.rs, and its theorems at concrete inputs.
use clash_verge_buty.Prelude.Assoc.{lookup, insert, remove}
use clash_verge_buty.Prelude.{
  ◌≡◌, refl, Bool, true, false, none, some, [], ◌∷◌, arith, eq_string, All, eq_iff,
}
use clash_verge_buty.Help.{durable, Answers, Disk, write_file_atomic, save_yaml}
use clash_verge_buty.Help.Atomic.{Safe, Outcome, write-outcome, write-keeps_content}

-- The file can be moved away, but nothing can be moved to its path.
abbrev stuck : Answers
stuck = record {
  has_parent = true;
  parent_exists = true;
  makes_parent = true;
  creates = true;
  cut = none;
  syncs = true;
  replaces = false;
  backs_up = true;
  replaces_again = false;
  restores = false;
  removes_temp = true;
  removes_backup = true;
}

abbrev start : Disk
start = record { files = ("clash.yaml", durable "mode: rule") ∷ []; past = [] }

abbrev end : Disk × Bool
end = write_file_atomic stuck "clash.yaml" ".a.tmp" ".a.bak" "mode: direct" start

kept_in_backup : (lookup ".a.bak" end.0.files ≡ some (durable "mode: rule")) × (end.1 ≡ false)
unfolding write_file_atomic lookup insert remove
kept_in_backup = (refl, refl)

prefixed :
    lookup "c"
      (save_yaml
        (record stuck { replaces = true })
        (some "mode: rule\n")
        (some "# by us")
        "c"
        "t"
        "b"
        start).0.files
    ≡ some (durable "# by us\n\nmode: rule\n")
unfolding save_yaml lookup insert remove
prefixed = refl

write-outcome_example :
    Outcome "clash.yaml" ".a.tmp" ".a.bak" "mode: direct" (lookup "clash.yaml" start.files) end
write-outcome_example =
    write-outcome stuck "clash.yaml" ".a.tmp" ".a.bak" "mode: direct" start.files
      (ground (arith, eq_iff ".a.tmp" "clash.yaml")) (ground (arith, eq_iff ".a.bak" "clash.yaml"))
      (ground (arith, eq_iff ".a.tmp" ".a.bak"))

write-keeps_content_example :
    All
      (Safe "clash.yaml" ".a.bak" "mode: direct" (lookup "clash.yaml" start.files))
      (end.0.files ∷ end.0.past)
write-keeps_content_example =
    write-keeps_content stuck "clash.yaml" ".a.tmp" ".a.bak" "mode: direct" start.files
      (ground (arith, eq_iff ".a.tmp" "clash.yaml")) (ground (arith, eq_iff ".a.bak" "clash.yaml"))
      (ground (arith, eq_iff ".a.tmp" ".a.bak"))

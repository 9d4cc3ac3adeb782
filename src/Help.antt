-- ===== src/Help.antt =====
-- src-tauri/src/utils/help.rs: files written so that no half-written content is ever under their path.
-- A file system is its contents by path. Whether a call of it succeeds is a parameter. A rename is at
-- once on the disk and happens whole or not at all; what is written to a file is only sure to be there
-- after a stop of the system once the file is synced.
pub mod Atomic
mod Tests
use clash_verge_buty.Prelude.Assoc.{Assoc, lookup, insert, remove}
use clash_verge_buty.Prelude.Text.{concat}
use clash_verge_buty.Prelude.{
  String, Bool, true, false, Option, none, some, List, [], ◌∷◌, eq_string, if◌then◌else◌,
}

-- What a file holds, and whether all of it has reached the disk.
pub record Content : Type 0 where
  pub bytes : String
  pub synced : Bool

abbrev pub durable : String → Content
durable bytes = record { bytes = bytes; synced = true }

abbrev pub volatile : String → Content
volatile bytes = record { bytes = bytes; synced = false }

-- `past` holds the earlier contents, the last one first.
pub record Disk : Type 0 where
  pub files : Assoc String Content
  pub past : List (Assoc String Content)

-- The answers to the calls of one `write_file_atomic`. `cut` is what a `write_all` that fails leaves
-- in the file. A rename that fails changes nothing.
pub record Answers : Type 0 where
  pub has_parent : Bool
  pub parent_exists : Bool
  pub makes_parent : Bool
  pub creates : Bool
  pub cut : Option String
  pub syncs : Bool
  pub replaces : Bool
  pub backs_up : Bool
  pub replaces_again : Bool
  pub restores : Bool
  pub removes_temp : Bool
  pub removes_backup : Bool

-- `Path::exists`
abbrev pub exists : Option Content → Bool
exists none = false
exists (some content) = true

abbrev pub become : Assoc String Content → Disk → Disk
become files d = record { files = files; past = d.files ∷ d.past }

abbrev pub put : String → Content → Disk → Disk
put path content d = become (insert path content d.files) d

abbrev move_content : Option Content → String → String → Disk → Disk
move_content none from to d = d
move_content (some content) from to d = become (insert to content (remove from d.files)) d

abbrev pub move : String → String → Disk → Disk
move from to d = move_content (lookup from d.files) from to d

-- `let _ = fs::remove_file(path)`
abbrev pub forget : Bool → String → Disk → Disk
forget true path d = become (remove path d.files) d
forget false path d = d

-- `file.sync_all()`. The answer says whether the call succeeds.
abbrev pub sync : Bool → String → String → Disk → Disk × Bool
sync true temp bytes d = (put temp (durable bytes) d, true)
sync false temp bytes d = (d, false)

-- `file.write_all(data)` and the call after it.
abbrev pub write_rest : Option String → Bool → String → String → Disk → Disk × Bool
write_rest none syncs temp bytes d = sync syncs temp bytes (put temp (volatile bytes) d)
write_rest (some part) syncs temp bytes d = (put temp (volatile part) d, false)

module _ (a : Answers) where
  unfoldable pub write_temp : String → String → Disk → Disk × Bool
  write_temp temp bytes d =
      if a.creates
      then write_rest a.cut a.syncs temp bytes (put temp (volatile "") d)
      else (d, false)

  -- The file itself has been moved to the backup.
  unfoldable pub swap : String → String → String → Disk → Disk × Bool
  swap path temp backup d =
      if a.replaces_again
      then (forget a.removes_backup backup (move temp path d), true)
      else (forget a.removes_temp temp (if a.restores then move backup path d else d), false)

  -- The first rename has failed.
  unfoldable pub fall_back : Bool → String → String → String → Disk → Disk × Bool
  unfolding swap
  fall_back true path temp backup d =
      if a.backs_up then swap path temp backup (move path backup d) else (d, false)
  fall_back false path temp backup d = (forget a.removes_temp temp d, false)

  unfoldable pub replace_file : Disk × Bool → String → String → String → Disk × Bool
  unfolding fall_back
  replace_file (d, false) path temp backup = (forget a.removes_temp temp d, false)
  replace_file (d, true) path temp backup =
      if a.replaces
      then (move temp path d, true)
      else fall_back (exists (lookup path d.files)) path temp backup d

  -- `temp` and `backup` are the names made of random letters and the time.
  unfoldable pub write_file_atomic : String → String → String → String → Disk → Disk × Bool
  unfolding replace_file write_temp
  write_file_atomic path temp backup bytes d =
      if a.has_parent
      then if a.parent_exists
        then replace_file (write_temp temp bytes d) path temp backup
        else if a.makes_parent
        then replace_file (write_temp temp bytes d) path temp backup
        else (d, false)
      else (d, false)

  abbrev with_prefix : Option String → String → String
  with_prefix none bytes = bytes
  with_prefix (some prefix) bytes = concat prefix (concat "\n\n" bytes)

  -- What `serde_yaml::to_string` answers is an argument.
  unfoldable pub save_yaml :
      Option String → Option String → String → String → String → Disk → Disk × Bool
  unfolding write_file_atomic
  save_yaml none prefix path temp backup d = (d, false)
  save_yaml (some bytes) prefix path temp backup d =
      write_file_atomic path temp backup (with_prefix prefix bytes) d

-- ===== src/Help/Atomic.antt =====
-- `write_file_atomic` of src-tauri/src/utils/help.rs at every moment, whichever of its calls fail.
use clash_verge_buty.Prelude.Assoc.{Assoc, lookup, insert, remove, lookup-insert, lookup-remove}
use clash_verge_buty.Prelude.{
  ◌≡◌, ◌≢◌, ◌∙◌, refl, sym, String, Bool, true, false, Option, none, some, [], ◌∷◌, ◌==◌, eq_string,
  eq_iff, if◌then◌else◌, arith, Bool-cases, inl, inr, All,
}
use clash_verge_buty.Help.{
  Content, durable, volatile, Disk, Answers, become, put, move, forget, write_rest, write_temp,
  swap, fall_back, replace_file, exists, write_file_atomic,
}

abbrev Files : Type 0
Files = Assoc String Content

-- A file appears under another name, and its old name is free.
moved :
    (from to j : String) (c : Content) (f : Files)
    → lookup j (insert to c (remove from f))
      ≡ (if to == j then some c else if from == j then none else lookup j f)
moved from to j c f = ground (arith, lookup-insert to j c (remove from f), lookup-remove from j f)

-- The file under the path is the old one, or the new content that has reached the disk, or there was an
-- old one and it is the backup.
pub data Safe (path backup bytes : String) (old : Option Content) (f : Files) : Type 0 where
  is_old : lookup path f ≡ old → Safe path backup bytes old f
  is_new : lookup path f ≡ some (durable bytes) → Safe path backup bytes old f
  is_backed : (c : Content) → old ≡ some c → lookup backup f ≡ some c → Safe path backup bytes old f

-- Where a failed write ends.
pub data Undone (path backup : String) (old : Option Content) (f : Files) : Type 0 where
  as_before : lookup path f ≡ old → Undone path backup old f
  backed_up :
      (c : Content)
      → old ≡ some c
      → lookup path f ≡ none
      → lookup backup f ≡ some c
      → Undone path backup old f

module _ (path temp backup bytes : String) (old : Option Content) where
  abbrev IsSafe : Files → Type 0
  IsSafe f = Safe path backup bytes old f

  abbrev Fine : Disk → Type 0
  Fine d = IsSafe d.files × All IsSafe d.past

  -- The outcome: the new content, or what a failure leaves.
  abbrev pub Outcome : Disk × Bool → Type 0
  Outcome (d, true) = lookup path d.files ≡ some (durable bytes)
  Outcome (d, false) = Undone path backup old d.files

  abbrev Good : Disk × Bool → Type 0
  Good r = Fine r.0 × Outcome r

  -- After the temporary file is written, or not.
  abbrev Written : Disk × Bool → Type 0
  Written (d, true) =
      Fine d × (lookup path d.files ≡ old) × (lookup temp d.files ≡ some (durable bytes))
  Written (d, false) = Fine d × (lookup path d.files ≡ old)

module _ (path temp backup bytes : String) (old : Option Content) (apart : temp ≢ path)
    (away : backup ≢ path) (distinct : temp ≢ backup) where
  abbrev IsFine : Disk → Type 0
  IsFine d = Fine path temp backup bytes old d

  abbrev IsGood : Disk × Bool → Type 0
  IsGood r = Good path temp backup bytes old r

  either-Good : (b : Bool) (r s : Disk × Bool) → IsGood r → IsGood s → IsGood (if b then r else s)
  either-Good true r s x y = x
  either-Good false r s x y = y

  kept : (content : Content) (f : Files) → lookup path (insert temp content f) ≡ lookup path f
  kept content f = ground (arith, lookup-insert temp path content f, eq_iff temp path)

  write_rest-Written :
      (cut : Option String) (syncs : Bool) (d : Disk)
      → IsFine d
      → lookup path d.files ≡ old
      → Written path temp backup bytes old (write_rest cut syncs temp bytes d)
  write_rest-Written none true d x e =
      let written = insert temp (volatile bytes) d.files in
      let e' = kept (volatile bytes) d.files ∙ e in
      let e'' = kept (durable bytes) written ∙ e' in
      (
        (is_old e'', (is_old e', x)),
        e'',
        ground (arith, lookup-insert temp temp (durable bytes) written, eq_iff temp temp),
      )
  write_rest-Written none false d x e =
      let e' = kept (volatile bytes) d.files ∙ e in ((is_old e', x), e')
  write_rest-Written (some part) syncs d x e =
      let e' = kept (volatile part) d.files ∙ e in ((is_old e', x), e')

  write_temp-Written :
      (a : Answers) (f : Files)
      → lookup path f ≡ old
      → Written path temp backup bytes old
          (write_temp a temp bytes (record { files = f; past = [] }))
  unfolding write_temp
  write_temp-Written a f e = elim (Bool-cases a.creates) [
    | inl y ↦ rw y (
        write_rest-Written a.cut a.syncs (put temp (volatile "") (record { files = f; past = [] }))
          (is_old (kept (volatile "") f ∙ e), (is_old e, tt)) (kept (volatile "") f ∙ e))
    | inr n ↦ rw n ((is_old e, tt), e)
  ]

  Undone-Safe : (f : Files) → Undone path backup old f → Safe path backup bytes old f
  Undone-Safe f (as_before e) = is_old e
  Undone-Safe f (backed_up c o e k) = is_backed c o k

  Undone-remove : (f : Files) → Undone path backup old f → Undone path backup old (remove temp f)
  Undone-remove f (as_before e) =
      as_before (ground (arith, e, lookup-remove temp path f, eq_iff temp path))
  Undone-remove f (backed_up c o e k) =
      backed_up c o (ground (arith, e, lookup-remove temp path f))
        (ground (arith, k, lookup-remove temp backup f, eq_iff temp backup))

  forget-Good :
      (b : Bool) (d : Disk)
      → IsFine d
      → Undone path backup old d.files
      → Good path temp backup bytes old (forget b temp d, false)
  forget-Good false d x u = (x, u)
  forget-Good true d x u =
      let v = Undone-remove d.files u in ((Undone-Safe (remove temp d.files) v, x), v)

  -- The old file is the backup now, or was not there to be moved.
  swap-Good :
      (a : Answers) (d : Disk) (c : Content)
      → IsFine d
      → old ≡ some c
      → lookup path d.files ≡ none
      → lookup backup d.files ≡ some c
      → lookup temp d.files ≡ some (durable bytes)
      → Good path temp backup bytes old (swap a path temp backup d)
  unfolding swap
  swap-Good a d c x o p b t =
      let replaced : lookup path (insert path (durable bytes) (remove temp d.files))
          ≡ some (durable bytes) =
        ground (arith, moved temp path path (durable bytes) d.files, eq_iff path path) in
      let cleaned : lookup path (remove backup (insert path (durable bytes) (remove temp d.files)))
          ≡ some (durable bytes) =
        ground (
          arith,
          replaced,
          lookup-remove backup path (insert path (durable bytes) (remove temp d.files)),
          eq_iff backup path,
        ) in
      let restored : lookup path (insert path c (remove backup d.files)) ≡ old =
        ground (arith, o, moved backup path path c d.files, eq_iff path path) in
      elim (Bool-cases a.replaces_again) [
        | inl y ↦ elim (Bool-cases a.removes_backup) [
          | inl r ↦ rw (y, r, t) ((is_new cleaned, (is_new replaced, x)), cleaned)
          | inr r ↦ rw (y, r, t) ((is_new replaced, x), replaced)
        ]
        | inr n ↦ elim (Bool-cases a.restores) [
          | inl r ↦
              rw (n, r, b)
                (forget-Good a.removes_temp (become (insert path c (remove backup d.files)) d)
                  (is_old restored, x) (as_before restored))
          | inr r ↦ rw (n, r) (forget-Good a.removes_temp d x (backed_up c o p b))
        ]
      ]

  fall_back-Good :
      (a : Answers) (found : Option Content) (d : Disk)
      → IsFine d
      → lookup path d.files ≡ found
      → old ≡ found
      → lookup temp d.files ≡ some (durable bytes)
      → Good path temp backup bytes old (fall_back a (exists found) path temp backup d)
  unfolding fall_back
  fall_back-Good a none d x p o t = forget-Good a.removes_temp d x (as_before (p ∙ sym o))
  fall_back-Good a (some c) d x p o t =
      let g = insert backup c (remove path d.files) in
      let free : lookup path g ≡ none =
        ground (arith, moved path backup path c d.files, eq_iff backup path, eq_iff path path) in
      let saved : lookup backup g ≡ some c =
        ground (arith, moved path backup backup c d.files, eq_iff backup backup) in
      let ready : lookup temp g ≡ some (durable bytes) =
        ground (arith, t, moved path backup temp c d.files, eq_iff backup temp, eq_iff path temp) in
      elim (Bool-cases a.backs_up) [
        | inl y ↦ rw (y, p) (swap-Good a (become g d) c (is_backed c o saved, x) o free saved ready)
        | inr n ↦ rw n (x, as_before (p ∙ sym o))
      ]

  replace_file-Good :
      (a : Answers) (r : Disk × Bool)
      → Written path temp backup bytes old r
      → Good path temp backup bytes old (replace_file a r path temp backup)
  unfolding replace_file
  replace_file-Good a (d, false) w = forget-Good a.removes_temp d w.0 (as_before w.1)
  replace_file-Good a (d, true) (x, p, t) =
      let replaced : lookup path (insert path (durable bytes) (remove temp d.files))
          ≡ some (durable bytes) =
        ground (arith, moved temp path path (durable bytes) d.files, eq_iff path path) in
      let renamed : IsGood (move temp path d, true) = rw t ((is_new replaced, x), replaced) in
      either-Good a.replaces (move temp path d, true)
        (fall_back a (exists (lookup path d.files)) path temp backup d) renamed
        (fall_back-Good a (lookup path d.files) d x refl (sym p) t)

  write-Good :
      (a : Answers) (f : Files)
      → lookup path f ≡ old
      → Good path temp backup bytes old
          (write_file_atomic a path temp backup bytes (record { files = f; past = [] }))
  unfolding write_file_atomic
  write-Good a f e =
      let d : Disk = record { files = f; past = [] } in
      let same : IsGood (d, false) = ((is_old e, tt), as_before e) in
      let written = replace_file a (write_temp a temp bytes d) path temp backup in
      let w : IsGood written =
        replace_file-Good a (write_temp a temp bytes d) (write_temp-Written a f e) in
      either-Good a.has_parent
        (if a.parent_exists then written else if a.makes_parent then written else (d, false))
        (d, false)
        (either-Good a.parent_exists written (if a.makes_parent then written else (d, false)) w
          (either-Good a.makes_parent written (d, false) w same))
        same

-- Where the write succeeds, the file has the new content, and all of it has reached the disk; where
-- it fails, whatever the failure, the file is as it was, or it is gone and the backup has its
-- content. (The three names differ.)
pub write-outcome :
    (a : Answers) (path temp backup bytes : String) (f : Assoc String Content)
    → temp ≢ path
    → backup ≢ path
    → temp ≢ backup
    → Outcome path temp backup bytes
        (lookup path f)
        (write_file_atomic a path temp backup bytes (record { files = f; past = [] }))
write-outcome a path temp backup bytes f p q r =
    (write-Good path temp backup bytes (lookup path f) p q r a f refl).1

-- At no moment of a write, whichever calls fail, is the content lost, even if the system stops then:
-- the file is the old one or has all of the new content, which has reached the disk, or there was an
-- old one and the backup is it. (The three names differ; renames are whole and in their order.)
pub write-keeps_content :
    (a : Answers) (path temp backup bytes : String) (f : Assoc String Content)
    → temp ≢ path
    → backup ≢ path
    → temp ≢ backup
    → let d = (write_file_atomic a path temp backup bytes (record { files = f; past = [] })).0 in
      All (Safe path backup bytes (lookup path f)) (d.files ∷ d.past)
write-keeps_content a path temp backup bytes f p q r =
    (write-Good path temp backup bytes (lookup path f) p q r a f refl).0

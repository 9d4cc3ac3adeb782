-- ===== src/Config/Tests.antt =====
-- Tests of src-tauri/src/config/draft.rs, and its theorems at concrete inputs.
use clash_verge_buty.Prelude.{ℕ, ◌+◌, ◌≡◌, refl, none}
use clash_verge_buty.Config.Draft.{Draft, from, latest, draft, update_draft}

begun : latest (update_draft (λ n. n + 1) (draft (from 3))) ≡ 4
unfolding latest update_draft draft from
begun = refl

abbrev clean : Draft ℕ
clean = record { committed = 3; pending = none }

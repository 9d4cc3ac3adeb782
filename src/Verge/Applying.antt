-- ===== src/Verge/Applying.antt =====
-- `patch_verge` of src-tauri/src/features/verge_config.rs as a transaction, and what holds of the
-- settings after any of its calls.
use clash_verge_buty.Prelude.{
  ◌≡◌, refl, sym, subst, ◌⊎◌, inl, inr, Bool, true, false, ◌&&◌, ◌||◌, not, Option, none, some,
  List, [], ◌∷◌, if◌then◌else◌, arith,
}
use clash_verge_buty.Config.Draft.{Draft, from, latest, update_draft, apply, discard}
use clash_verge_buty.Config.Profiles.Item.{or_else}
use clash_verge_buty.Verge.{IVerge, patch_config}
use clash_verge_buty.Verge.Patch.{
  Program, App, Work, unwrap_or_false, is_some, is_elevated, tun_guard, service_guard, validate,
  attempt, settled, validated, patch_verge,
}

-- The new settings without a draft; or the old ones, and the draft dropped or not touched.
abbrev pub Transaction : {p : Program} → IVerge → Draft IVerge → App p × Bool → Type 0
Transaction patch d (s, true) = s.verge ≡ from (patch_config patch (latest d))
Transaction patch d (s, false) = (s.verge ≡ d) ⊎ (s.verge ≡ record d { pending = none })

settled_lem :
    (p : Program) (patch : IVerge) (d : Draft IVerge) (r : Work p × Bool)
    → Transaction patch d (settled p (update_draft (patch_config patch) d) r)
unfolding apply discard update_draft latest from
settled_lem p patch d (k, true) = refl
settled_lem p patch d (k, false) = inr refl

validated_lem :
    (p : Program) (patch : IVerge) (d : Draft IVerge) (r : Program.World p × Bool)
    → Transaction patch d (validated p patch d r)
validated_lem p patch d (w, false) = inl refl
validated_lem p patch d (w, true) =
    settled_lem p patch d (attempt p patch (latest (update_draft (patch_config patch) d)) w)

-- A patch of the settings is a transaction, whichever call fails, and whatever others did to the
-- settings before it made its draft: with success the settings are the old ones under the patch, and
-- nothing is pending; with an error the committed settings are the old ones, and the draft is
-- dropped, or as it was where the patch was refused before anything was tried.
pub patch_verge-Transaction :
    (p : Program) (patch : IVerge) (meanwhile : Draft IVerge → Draft IVerge) (s : App p)
    → Transaction patch (meanwhile s.verge) (patch_verge p patch meanwhile s)
unfolding patch_verge
patch_verge-Transaction p patch meanwhile s =
    validated_lem p patch (meanwhile s.verge) (validate p patch (latest s.verge) s.world)

-- TUN mode comes with service mode.
abbrev pub tun_served : IVerge → Bool
tun_served v = not (unwrap_or_false v.enable_tun_mode) || unwrap_or_false v.enable_service_mode

served_lem :
    (p : Program) (pt ps ct cs : Option Bool) (w : Program.World p)
    → (if (unwrap_or_false ps || unwrap_or_false pt) && not (is_elevated p w)
        then (w, false)
        else if unwrap_or_false ct && is_some ps
        then (w, false)
        else if service_guard p ps w
        then tun_guard p pt ps (unwrap_or_false cs) w
        else (w, false)).1
      ≡ true
    → (not (unwrap_or_false ct) || unwrap_or_false cs) ≡ true
    → (not (unwrap_or_false (or_else pt ct)) || unwrap_or_false (or_else ps cs)) ≡ true
served_lem p (some true) none ct cs w h k = ground arith
served_lem p (some true) (some b) ct cs w h k = ground arith
served_lem p (some false) ps ct cs w h k = refl
served_lem p none none ct cs w h k = k
served_lem p none (some b) ct cs w h k = ground arith

-- No draft is pending, and the settings are in order.
record Ready (d : Draft IVerge) : Type 0 where
  quiet : d.pending ≡ none
  served : tun_served d.committed ≡ true

quiet_lem : (d : Draft IVerge) → d.pending ≡ none → latest d ≡ d.committed
unfolding latest
quiet_lem d e = ground arith

transaction_lem :
    (p : Program) (patch : IVerge) (d : Draft IVerge) (r : App p × Bool)
    → (r.1 ≡ true → tun_served (patch_config patch (latest d)) ≡ true)
    → Transaction patch d r
    → Ready d
    → Ready r.0.verge
unfolding from
transaction_lem p patch d (s, true) k t x =
    subst (λ e. Ready e) (sym t) (record { quiet = refl; served = k refl })
transaction_lem p patch d (s, false) k (inl e) x = subst (λ e. Ready e) (sym e) x
transaction_lem p patch d (s, false) k (inr e) x =
    subst (λ e. Ready e) (sym e) (record { quiet = refl; served = x.served })

succeeded_lem :
    (p : Program) (patch : IVerge) (d : Draft IVerge) (r : Program.World p × Bool)
    → (validated p patch d r).1 ≡ true
    → r.1 ≡ true
succeeded_lem p patch d (w, true) h = refl
succeeded_lem p patch d (w, false) h = absurd (ground arith)

patch-served :
    (p : Program) (patch : IVerge) (s : App p)
    → tun_served (latest s.verge) ≡ true
    → (patch_verge p patch (λ d. d) s).1 ≡ true
    → tun_served (patch_config patch (latest s.verge)) ≡ true
unfolding patch_verge validate patch_config
patch-served p patch s k h =
    let v = latest s.verge in
    served_lem p patch.enable_tun_mode patch.enable_service_mode v.enable_tun_mode
      v.enable_service_mode s.world (succeeded_lem p patch s.verge (validate p patch v s.world) h) k

-- The settings after patches, the first at the head, each in a world that others may have changed. They
-- do not overlap: each finds the settings as the one before has left them.
unfoldable pub run_patches :
    (p : Program) → List ((Program.World p → Program.World p) × IVerge) → App p → App p
unfolding patch_verge
run_patches p [] s = s
run_patches p ((others, patch) ∷ patches) s =
    run_patches p patches (patch_verge p patch (λ d. d) (record s { world = others s.world })).0

run_patches-Ready :
    (p : Program) (patches : List ((Program.World p → Program.World p) × IVerge)) (s : App p)
    → Ready s.verge
    → Ready (run_patches p patches s).verge
unfolding run_patches
run_patches-Ready p [] s x = x
run_patches-Ready p ((others, patch) ∷ patches) s x =
    let t : App p = record s { world = others s.world } in
    run_patches-Ready p patches (patch_verge p patch (λ d. d) t).0 (
      transaction_lem p patch s.verge (patch_verge p patch (λ d. d) t)
        (patch-served p patch t
          (subst (λ v. tun_served v ≡ true) (sym (quiet_lem s.verge x.quiet)) x.served))
        (patch_verge-Transaction p patch (λ d. d) t) x)

-- TUN mode is never on without service mode, as long as the patches of the settings do not overlap:
-- settings in which this holds keep it through any patches that come one after the other, whichever of
-- them are refused or fail, and whatever else of the program's world changes between them.
pub run_patches-tun_served :
    (p : Program) (patches : List ((Program.World p → Program.World p) × IVerge)) (v : IVerge)
    (w : Program.World p)
    → tun_served v ≡ true
    → tun_served (latest (run_patches p patches (record { verge = from v; world = w })).verge)
      ≡ true
unfolding from
run_patches-tun_served p patches v w h =
    let s : App p = record { verge = from v; world = w } in
    let x = run_patches-Ready p patches s (record { quiet = refl; served = h }) in
    subst (λ u. tun_served u ≡ true) (sym (quiet_lem (run_patches p patches s).verge x.quiet))
      x.served

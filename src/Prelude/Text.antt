-- ===== src/Prelude/Text.antt =====
-- Texts put together, prefixes of texts, and texts in order.
use Prim.Native.Nat.{Ordering}
use Prim.Native.String.{String, ◌++◌, len, slice, compare}
use mathlib.Core.Path.{◌≡◌, refl, sym, ap, ◌∙◌, subst}
use mathlib.Core.Bool.{Bool, true, false, ◌||◌}
use mathlib.Core.List.{List, [], ◌∷◌}
use mathlib.Core.Option.{Option, none, some}
use mathlib.Core.Logic.{inl, inr}
use native.Mathlib.Omega.{arith}
use text.Mathlib.Text.{starts_with}
use text.Mathlib.TextEquality.{starts_with_iff}
use text.Mathlib.TextPositions.{len-append, slice-append_right, starts_with-append}
use clash_verge_buty.Prelude.Tests.{if◌then◌else◌, ◌==◌, eq_string, Bool-cases}
use clash_verge_buty.Prelude.Lists.{contains}

-- `format!("{s}{t}")`
abbrev pub concat : String → String → String
concat s t = s ++ t

-- `str::strip_prefix`
unfoldable pub strip_prefix : String → String → Option String
strip_prefix prefix s = if starts_with s prefix then some (slice s (len prefix) (len s)) else none

pub strip_prefix-concat : (prefix s : String) → strip_prefix prefix (concat prefix s) ≡ some s
unfolding strip_prefix
strip_prefix-concat prefix s =
    rw (starts_with-append prefix s, len-append prefix s, slice-append_right prefix s) refl

pub concat_cancel : (prefix s t : String) → concat prefix s ≡ concat prefix t → s ≡ t
concat_cancel prefix s t h =
    let joined : some s ≡ some t =
      sym (strip_prefix-concat prefix s)
      ∙ ap (strip_prefix prefix) h
      ∙ strip_prefix-concat prefix t in
    ground (arith, joined)

abbrev before : String → String → Bool
before s t = elim (compare s t) [ Ordering.gt ↦ false | _ ↦ true ]

abbrev place_sorted : String → List String → List String
place_sorted s [] = s ∷ []
place_sorted s (t ∷ ts) =
    let rest = place_sorted s ts in if before s t then s ∷ t ∷ ts else t ∷ rest

-- `Vec::sort` of texts.
unfoldable pub sort : List String → List String
sort [] = []
sort (s ∷ ss) = place_sorted s (sort ss)

contains-place_sorted :
    (s k : String) (ts : List String) → contains (place_sorted s ts) k ≡ (s == k || contains ts k)
contains-place_sorted s k [] = refl
contains-place_sorted s k (t ∷ ts) = elim (Bool-cases (before s t)) [
  | inl y ↦ rw y refl
  | inr n ↦ rw n (ground (arith, contains-place_sorted s k ts))
]

pub contains-sort : (k : String) (ss : List String) → contains (sort ss) k ≡ contains ss k
unfolding sort
contains-sort k [] = refl
contains-sort k (s ∷ ss) = ground (arith, contains-place_sorted s k (sort ss), contains-sort k ss)

pub strip_prefix-inverse :
    (prefix s rest : String) → strip_prefix prefix s ≡ some rest → concat prefix rest ≡ s
unfolding strip_prefix
strip_prefix-inverse prefix s rest h = elim (Bool-cases (starts_with s prefix)) [
  | inl y ↦
      let (u, joined) = (starts_with_iff s prefix).0 y in
      let same : some u ≡ some rest =
        sym (strip_prefix-concat prefix u) ∙ ap (strip_prefix prefix) joined ∙ h in
      subst (λ v. concat prefix v ≡ s) (ground (arith, same)) joined
  | inr n ↦ absurd (ground arith)
]

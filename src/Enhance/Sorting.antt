-- ===== src/Enhance/Sorting.antt =====
-- `use_sort` of src-tauri/src/enhance/field.rs keeps the values of a configuration.
use clash_verge_buty.Prelude.{
  ◌≡◌, refl, ◌∙◌, String, true, false, not, none, some, List, [], ◌∷◌, ◌++◌, ◌==◌, eq_string,
  if◌then◌else◌, contains, contains-retain, contains-append, arith, eq_iff, Bool-cases,
  Option-cases, inl, inr,
}
use clash_verge_buty.Enhance.Yaml.{Yaml}
use clash_verge_buty.Enhance.Field.{
  use_sort, copy_all, copied, texts_of, difference, handle_fields, default_fields,
}

-- A `HashSet` holds what was put in.
abbrev pub KeepsElements : (List String → List String) → Type 0
KeepsElements hashed = (xs : List String) (s : String) → contains (hashed xs) s ≡ contains xs s

module _ (y : Yaml) where
  open y use {
    Value, Mapping, from_str, as_str, empty, get, insert, keys, as_str-from_str, get-empty,
    get-insert, get-insert_other, keys-get,
  }

  get-copied :
      (config : Mapping) (k s : String) (ret : Mapping)
      → get (from_str s) (copied y config k (get (from_str k) config) ret) ≡ (
          if k == s
          then elim (get (from_str s) config) [ none ↦ get (from_str s) ret | some v ↦ some v ]
          else get (from_str s) ret)
  get-copied config k s ret = elim (Option-cases (get (from_str k) config)) [
    | inl e ↦ elim (Bool-cases (k == s)) [
      | inl t ↦
          let is : k ≡ s = ground (arith, eq_iff k s) in
          let e' : get (from_str s) config ≡ none = rw (← is) e in rw (e, t, e')
      | inr f ↦ rw (e, f)
    ]
    | inr (v, e) ↦ elim (Bool-cases (k == s)) [
      | inl t ↦
          let is : k ≡ s = ground (arith, eq_iff k s) in
          let e' : get (from_str s) config ≡ some v = rw (← is) e in
          rw (e, t, e', is) (get-insert s v ret)
      | inr f ↦ rw (e, f) (get-insert_other k s v ret (ground (arith, eq_iff k s)))
    ]
  ]

  copy_all-absent :
      (config : Mapping) (ks : List String) (s : String) (ret : Mapping)
      → get (from_str s) config ≡ none
      → get (from_str s) (copy_all y config ks ret) ≡ get (from_str s) ret
  unfolding copy_all
  copy_all-absent config [] s ret e = refl
  copy_all-absent config (k ∷ ks) s ret e =
      let next = copied y config k (get (from_str k) config) ret in
      copy_all-absent config ks s next e ∙ ground (arith, e, get-copied config k s ret)

  copy_all-present :
      (config : Mapping) (ks : List String) (s : String) (ret : Mapping) (v : Value)
      → get (from_str s) config ≡ some v
      → get (from_str s) ret ≡ some v
      → get (from_str s) (copy_all y config ks ret) ≡ some v
  unfolding copy_all
  copy_all-present config [] s ret v e h = h
  copy_all-present config (k ∷ ks) s ret v e h =
      copy_all-present config ks s (copied y config k (get (from_str k) config) ret) v e
        (ground (arith, get-copied config k s ret))

  copy_all-copies :
      (config : Mapping) (ks : List String) (s : String) (ret : Mapping) (v : Value)
      → get (from_str s) config ≡ some v
      → contains ks s ≡ true
      → get (from_str s) (copy_all y config ks ret) ≡ some v
  unfolding copy_all
  copy_all-copies config [] s ret v e h = ground arith
  copy_all-copies config (k ∷ ks) s ret v e h =
      let next = copied y config k (get (from_str k) config) ret in
      elim (Bool-cases (k == s)) [
        | inl t ↦ copy_all-present config ks s next v e (ground (arith, get-copied config k s ret))
        | inr f ↦ copy_all-copies config ks s next v e (ground arith)
      ]

  contains-texts_of :
      (xs ys : List Value) (s : String) → contains (texts_of y (xs ++ from_str s ∷ ys)) s ≡ true
  contains-texts_of [] ys s = rw (as_str-from_str s) (ground (arith, eq_iff s s))
  contains-texts_of (x ∷ xs) ys s =
      ground (arith, contains-texts_of xs ys s, Option-cases (as_str x))

  others-contains :
      (hashed : List String → List String) (config : Mapping) (s : String) (v : Value)
      → KeepsElements hashed
      → get (from_str s) config ≡ some v
      → contains (handle_fields ++ default_fields) s ≡ false
      → contains
          (hashed (difference (texts_of y (keys config)) (handle_fields ++ default_fields)))
          s
        ≡ true
  others-contains hashed config s v keeps e h =
      let (xs, ys, is) = keys-get s v config e in
      keeps (difference (texts_of y (keys config)) (handle_fields ++ default_fields)) s
      ∙ ground (
        arith,
        contains-retain (λ x. not (contains (handle_fields ++ default_fields) x))
            (texts_of y (keys config)) s,
        contains-texts_of xs ys s,
      )

  sorted-get :
      (others : List String) (config : Mapping) (s : String)
      → ((v : Value)
          → get (from_str s) config ≡ some v
          → contains (handle_fields ++ default_fields) s ≡ false
          → contains others s ≡ true)
      → get (from_str s) (
          copy_all y config default_fields
            (copy_all y config others (copy_all y config handle_fields empty)))
        ≡ get (from_str s) config
  sorted-get others config s found =
      let first = copy_all y config handle_fields empty in
      let second = copy_all y config others first in
      elim (Option-cases (get (from_str s) config)) [
        | inl e ↦
            rw
              (
                e,
                copy_all-absent config default_fields s second e,
                copy_all-absent config others s first e,
                copy_all-absent config handle_fields s empty e,
              )
              (get-empty (from_str s))
        | inr (v, e) ↦ rw e (elim (Bool-cases (contains default_fields s)) [
          | inl d ↦ copy_all-copies config default_fields s second v e d
          | inr nd ↦
              copy_all-present config default_fields s second v e
                (elim (Bool-cases (contains handle_fields s)) [
                  | inl h ↦
                      copy_all-present config others s first v e
                        (copy_all-copies config handle_fields s empty v e h)
                  | inr nh ↦
                      copy_all-copies config others s first v e
                        (found v e (ground (arith, contains-append handle_fields default_fields s)))
                ])
        ])
      ]

  -- Sorting the configuration changes the value of no key that is a text, whether or not it is one
  -- of the known fields, in whatever order the hash set gives the others,
  -- as long as it holds the elements that were put in.
  pub use_sort-get :
      (hashed : List String → List String) (config : Mapping) (s : String)
      → KeepsElements hashed
      → get (from_str s) (use_sort y hashed config) ≡ get (from_str s) config
  unfolding use_sort
  use_sort-get hashed config s keeps =
      sorted-get (hashed (difference (texts_of y (keys config)) (handle_fields ++ default_fields)))
        config s (λ v e h. others-contains hashed config s v keeps e h)

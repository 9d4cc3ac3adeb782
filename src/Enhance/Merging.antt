-- ===== src/Enhance/Merging.antt =====
-- The rules after `use_merge` of src-tauri/src/enhance/merge.rs.
use clash_verge_buty.Prelude.{
  ◌≡◌, ◌≢◌, refl, sym, subst, ap, ◌∙◌, String, Bool, true, false, Option, none, some, ◌==◌,
  if◌then◌else◌, contains, List, [], ◌∷◌, ◌++◌, eq_string, eq_iff, arith, Bool-cases, Option-cases,
  inl, inr,
}
use clash_verge_buty.Config.Profiles.Item.{or_else}
use clash_verge_buty.Enhance.Yaml.{Yaml}
use clash_verge_buty.Enhance.Field.{
  use_filter, use_lowercase, put_filtered, filter_entries, lowercase_entries, make_ascii_lowercase,
}
use clash_verge_buty.Enhance.Merge.{
  use_merge, merge_list, merge_mapping, put_list, put_mapping, list_or_empty, merged_items,
  items_of, overridden, override_entries, text_or_empty, merge_fields,
}

abbrev matches : (String → String) → String → Option String → Bool
matches f s none = false
matches f s (some k) = f k == s

module _ (y : Yaml) where
  open y use {
    Value, Mapping, from_str, from_sequence, from_mapping, is_empty, as_str, as_sequence, entries,
    empty, get-empty, get, insert, as_sequence-from_sequence, get-insert, get-insert_other,
  }

  put_list-other :
      (key s : String) (vs : List Value) (config : Mapping)
      → key ≢ s
      → get (from_str s) (put_list y key vs config) ≡ get (from_str s) config
  unfolding put_list
  put_list-other key s [] config n = refl
  put_list-other key s (v ∷ vs) config n = get-insert_other key s (from_sequence (v ∷ vs)) config n

  put_mapping-other :
      (key s : String) (map config : Mapping)
      → key ≢ s
      → get (from_str s) (put_mapping y key map config) ≡ get (from_str s) config
  unfolding put_mapping
  put_mapping-other key s map config n = elim (Bool-cases (is_empty map)) [
    | inl t ↦ rw t refl
    | inr f ↦ rw f (get-insert_other key s (from_mapping map) config n)
  ]

  put_list-items :
      (key : String) (vs : List Value) (config : Mapping)
      → (vs ≡ [] → items_of y (get (from_str key) config) ≡ [])
      → items_of y (get (from_str key) (put_list y key vs config)) ≡ vs
  unfolding put_list
  put_list-items key [] config h = h refl
  put_list-items key (v ∷ vs) config h =
      rw (get-insert key (from_sequence (v ∷ vs)) config)
        (ap (list_or_empty y) (as_sequence-from_sequence (v ∷ vs)))

  middle_empty : (xs ys zs : List Value) → xs ++ (ys ++ zs) ≡ [] → ys ≡ []
  middle_empty [] [] zs h = refl
  middle_empty [] (v ∷ ys) zs h = absurd (ground arith)
  middle_empty (x ∷ xs) ys zs h = absurd (ground arith)

  merge_list-items :
      (merge : Mapping) (key : String) (config : Mapping)
      → items_of y (get (from_str key) (merge_list y merge key config))
        ≡ merged_items y merge key config
  unfolding merge_list
  merge_list-items merge key config =
      put_list-items key (merged_items y merge key config) config
        (λ e. middle_empty _ (items_of y (get (from_str key) config)) _ e)

  merge_list-other :
      (merge : Mapping) (key s : String) (config : Mapping)
      → key ≢ s
      → get (from_str s) (merge_list y merge key config) ≡ get (from_str s) config
  unfolding merge_list
  merge_list-other merge key s config n =
      put_list-other key s (merged_items y merge key config) config n

  merge_mapping-other :
      (merge : Mapping) (key s : String) (config : Mapping)
      → key ≢ s
      → get (from_str s) (merge_mapping y merge key config) ≡ get (from_str s) config
  unfolding merge_mapping
  merge_mapping-other merge key s config n = put_mapping-other key s _ config n

  -- The rules, of the configuration with the merge's other keys over it.
  use_merge_lem :
      (merge config : Mapping)
      → items_of y (get (from_str "rules") (use_merge y merge config))
        ≡ items_of y (get (from_str "prepend-rules") (use_filter y merge merge_fields))
          ++ (items_of y (get (from_str "rules") (overridden y merge config))
              ++ items_of y (get (from_str "append-rules") (use_filter y merge merge_fields)))
  unfolding use_merge
  use_merge_lem merge config =
      let fields = use_filter y merge merge_fields in
      let config' = overridden y merge config in
      let rule_providers = merge_mapping y fields "rule-providers" config' in
      let providers = merge_mapping y fields "proxy-providers" rule_providers in
      let rules = merge_list y fields "rules" providers in
      let proxies = merge_list y fields "proxies" rules in
      rw
        (
          merge_list-other fields "proxy-groups" "rules" proxies
              (ground (arith, eq_iff "proxy-groups" "rules")),
          merge_list-other fields "proxies" "rules" rules
              (ground (arith, eq_iff "proxies" "rules")),
          merge_list-items fields "rules" providers,
          merge_mapping-other fields "proxy-providers" "rules" rule_providers
              (ground (arith, eq_iff "proxy-providers" "rules")),
          merge_mapping-other fields "rule-providers" "rules" config'
              (ground (arith, eq_iff "rule-providers" "rules")),
        )
        refl

  -- The last value of a list of entries whose key is a text that the function takes to `s`.
  abbrev pub last_value : (String → String) → String → List (Value × Value) → Option Value
  last_value f s [] = none
  last_value f s ((key, value) ∷ rest) =
      let more = last_value f s rest in
      or_else more (if matches f s (as_str key) then some value else none)

  -- What the crate documents of the entries of a mapping: they are its keys with their values; a key
  -- that is a text is the value made of this text, and other keys do not touch it.
  pub record Keyed : Type 0 where
    pub entries-get :
        (s : String) (m : Mapping) → last_value (λ k. k) s (entries m) ≡ get (from_str s) m
    pub text-key : (k : Value) (s : String) → as_str k ≡ some s → k ≡ from_str s
    pub other-key :
        (k v : Value) (s : String) (m : Mapping)
        → as_str k ≡ none
        → get (from_str s) (insert k v m) ≡ get (from_str s) m

  get-put :
      (s t : String) (v : Value) (m : Mapping)
      → get (from_str s) (insert (from_str t) v m) ≡ (if t == s then some v else get (from_str s) m)
  get-put s t v m = elim (Bool-cases (t == s)) [
    | inl e ↦
        let is : t ≡ s = ground (arith, eq_iff t s) in
        rw e (
          subst (λ u. get (from_str s) (insert (from_str u) v m) ≡ some v) (sym is)
            (get-insert s v m))
    | inr n ↦ rw n (get-insert_other t s v m (ground (arith, eq_iff t s)))
  ]

  or_else_assoc : (a b c : Option Value) → or_else (or_else a b) c ≡ or_else a (or_else b c)
  or_else_assoc none b c = refl
  or_else_assoc (some v) b c = refl

  -- One more entry, before the others.
  abbrev first : Bool → Value → Option Value → Option Value
  first b value old = or_else (if b then some value else none) old

  put_filtered-get :
      (filter : List String) (s : String) (key : Option String) (value : Value) (ret : Mapping)
      → contains filter s ≡ true
      → get (from_str s) (put_filtered y filter key value ret)
        ≡ first (matches (λ k. k) s key) value (get (from_str s) ret)
  put_filtered-get filter s none value ret h = refl
  put_filtered-get filter s (some k) value ret h = ground (arith, get-put s k value ret, eq_iff k s)

  filter_entries-get :
      (filter : List String) (s : String) (es : List (Value × Value)) (ret : Mapping)
      → contains filter s ≡ true
      → get (from_str s) (filter_entries y filter es ret)
        ≡ or_else (last_value (λ k. k) s es) (get (from_str s) ret)
  filter_entries-get filter s [] ret h = refl
  filter_entries-get filter s ((key, value) ∷ rest) ret h =
      filter_entries-get filter s rest (put_filtered y filter (as_str key) value ret) h
      ∙ ap (or_else (last_value (λ k. k) s rest))
          (put_filtered-get filter s (as_str key) value ret h)
      ∙ sym (or_else_assoc (last_value (λ k. k) s rest) _ (get (from_str s) ret))

  use_filter-get :
      (l : Keyed) (filter : List String) (s : String) (m : Mapping)
      → contains filter s ≡ true
      → get (from_str s) (use_filter y m filter) ≡ get (from_str s) m
  unfolding use_filter
  use_filter-get l filter s m h = ground (
    arith,
    filter_entries-get filter s (entries m) empty h,
    l.entries-get s m,
    get-empty (from_str s),
  )

  lowercase_entries-get :
      (s : String) (es : List (Value × Value)) (ret : Mapping)
      → get (from_str s) (lowercase_entries y es ret)
        ≡ or_else (last_value make_ascii_lowercase s es) (get (from_str s) ret)
  unfolding lowercase_entries
  lowercase_entries-get s [] ret = refl
  lowercase_entries-get s ((key, value) ∷ rest) ret = elim (Option-cases (as_str key)) [
    | inl e ↦ rw e (ground (arith, lowercase_entries-get s rest ret))
    | inr (k, e) ↦
        let low = make_ascii_lowercase k in
        rw e (
          ground (
            arith,
            lowercase_entries-get s rest (insert (from_str low) value ret),
            get-put s low value ret,
          ))
  ]

  use_lowercase-get :
      (s : String) (m : Mapping)
      → get (from_str s) (use_lowercase y m) ≡ last_value make_ascii_lowercase s (entries m)
  unfolding use_lowercase
  use_lowercase-get s m =
      ground (arith, lowercase_entries-get s (entries m) empty, get-empty (from_str s))

  -- A key of the merge's own fields is passed over.
  override_entry-get :
      (l : Keyed) (s : String) (text : Option String) (key value : Value) (config : Mapping)
      → contains merge_fields s ≡ false
      → as_str key ≡ text
      → get
          (from_str s)
          (if contains merge_fields (text_or_empty y text) then config else insert key value config)
        ≡ first (matches (λ k. k) s text) value (get (from_str s) config)
  override_entry-get l s none key value config h e = l.other-key key value s config e
  override_entry-get l s (some k) key value config h e =
      let put : get (from_str s) (insert key value config)
          ≡ (if k == s then some value else get (from_str s) config) =
        ap (λ j. get (from_str s) (insert j value config)) (l.text-key key k e)
        ∙ get-put s k value config in
      elim (Bool-cases (contains merge_fields k)) [
        | inl c ↦
            let other : (k == s) ≡ false = elim (Bool-cases (k == s)) [
              | inl t ↦
                  let is : k ≡ s = ground (arith, eq_iff k s) in
                  let both : true ≡ false = sym c ∙ ap (contains merge_fields) is ∙ h in
                  absurd (ground (arith, both))
              | inr f ↦ f
            ] in
            rw (c, other) refl
        | inr n ↦ rw n (ground (arith, put))
      ]

  override_entries-get :
      (l : Keyed) (s : String) (es : List (Value × Value)) (config : Mapping)
      → contains merge_fields s ≡ false
      → get (from_str s) (override_entries y es config)
        ≡ or_else (last_value (λ k. k) s es) (get (from_str s) config)
  override_entries-get l s [] config h = refl
  override_entries-get l s ((key, value) ∷ rest) config h =
      override_entries-get l s rest
        (if contains merge_fields (text_or_empty y (as_str key))
          then config
          else insert key value config)
        h
      ∙ ap (or_else (last_value (λ k. k) s rest))
          (override_entry-get l s (as_str key) key value config h refl)
      ∙ sym (or_else_assoc (last_value (λ k. k) s rest) _ (get (from_str s) config))

  -- The rules after a merge are those that it prepends, those of the configuration (or of the merge,
  -- if it has a key that is `rules` but for upper and lower case: the last such key), and those that
  -- it appends, in this order. (The entries of a mapping are its keys with their values.)
  pub use_merge-rules :
      (l : Keyed) (merge config : Mapping)
      → items_of y (get (from_str "rules") (use_merge y merge config))
        ≡ items_of y (get (from_str "prepend-rules") merge)
          ++ (items_of y (
                or_else
                  (last_value make_ascii_lowercase "rules" (entries merge))
                  (get (from_str "rules") config))
              ++ items_of y (get (from_str "append-rules") merge))
  unfolding overridden
  use_merge-rules l merge config =
      let low = use_lowercase y merge in
      use_merge_lem merge config
      ∙ rw
          (
            use_filter-get l merge_fields "prepend-rules" merge refl,
            use_filter-get l merge_fields "append-rules" merge refl,
            override_entries-get l "rules" (entries low) config refl,
            l.entries-get "rules" low,
            use_lowercase-get "rules" merge,
          )
          refl

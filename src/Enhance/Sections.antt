-- ===== src/Enhance/Sections.antt =====
-- The sections `tun` and `dns` after `use_tun` of src-tauri/src/enhance/tun.rs and after
-- `apply_ipv6_to_dns` of mod.rs.
use clash_verge_buty.Prelude.{
  ◌≡◌, ◌≢◌, refl, ◌∙◌, String, Bool, true, false, ◌||◌, Option, none, some, [], ◌∷◌, eq_string,
  eq_iff, arith, Bool-cases, Option-cases, inl, inr, ◌⊎◌,
}
use clash_verge_buty.Enhance.Yaml.{Yaml}
use clash_verge_buty.Enhance.Tun.{
  use_tun, use_dns_for_tun, mapping_of, mapping_or, is_some, complete_dns, with_tun, append, revise,
  strings,
}
use clash_verge_buty.Enhance.Pipeline.{apply_ipv6_to_dns, or_false}

module _ (y : Yaml) where
  open y use {
    Value, Mapping, from_str, from_bool, from_mapping, as_bool, as_mapping, empty, get, insert,
    remove, as_bool-from_bool, as_mapping-from_mapping, get-insert, get-insert_other, get-remove,
  }

  abbrev pub bool_of : Option Value → Option Bool
  bool_of none = none
  bool_of (some v) = as_bool v

  abbrev pub section_of : Option Value → Mapping
  section_of none = empty
  section_of (some v) = mapping_or y empty (as_mapping v)

  -- The Boolean under a key of a section, such as `tun.enable`.
  abbrev pub flag : String → String → Mapping → Option Bool
  flag name key config = bool_of (get (from_str key) (section_of (get (from_str name) config)))

  get-append_other :
      (key s : String) (v : Value) (m : Mapping)
      → key ≢ s
      → get (from_str s) (append y key v m) ≡ get (from_str s) m
  get-append_other key s v m n = elim (Option-cases (get (from_str key) m)) [
    | inl e ↦ rw e (get-insert_other key s v m n)
    | inr (w, e) ↦ rw e
  ]

  flag-insert :
      (name key : String) (m config : Mapping)
      → flag name key (insert (from_str name) (from_mapping m) config)
        ≡ bool_of (get (from_str key) m)
  flag-insert name key m config =
      rw (get-insert name (from_mapping m) config, as_mapping-from_mapping m) refl

  flag-insert_other :
      (other name key : String) (v : Value) (config : Mapping)
      → other ≢ name
      → flag name key (insert (from_str other) v config) ≡ flag name key config
  flag-insert_other other name key v config n = rw (get-insert_other other name v config n) refl

  section_lem : (found : Option Value) → mapping_of y empty found ≡ section_of found
  unfolding mapping_of
  section_lem none = refl
  section_lem (some v) = refl

  enabled_lem :
      (b : Bool) (m : Mapping)
      → bool_of (get (from_str "enable") (revise y "enable" (from_bool b) m)) ≡ some b
  enabled_lem b m = rw (get-insert "enable" (from_bool b) m) (as_bool-from_bool b)

  complete_dns-enable :
      (dns : Mapping) → bool_of (get (from_str "enable") (complete_dns y dns)) ≡ some true
  complete_dns-enable dns =
      let a = revise y "enable" (from_bool true) dns in
      let b = append y "enhanced-mode" (from_str "fake-ip") a in
      let c = append y "fake-ip-range" (from_str "198.18.0.1/16") b in
      let ns = strings y ("114.114.114.114" ∷ "223.5.5.5" ∷ "8.8.8.8" ∷ []) in
      let d = append y "nameserver" ns c in
      let e = append y "fallback" (strings y []) d in
      let filter =
        strings y ("dns.msftncsi.com" ∷ "www.msftncsi.com" ∷ "www.msftconnecttest.com" ∷ []) in
      rw
        (
          get-append_other "fake-ip-filter" "enable" filter e
              (ground (arith, eq_iff "fake-ip-filter" "enable")),
          get-append_other "fallback" "enable" (strings y []) d
              (ground (arith, eq_iff "fallback" "enable")),
          get-append_other "nameserver" "enable" ns c
              (ground (arith, eq_iff "nameserver" "enable")),
          get-append_other "fake-ip-range" "enable" (from_str "198.18.0.1/16") b
              (ground (arith, eq_iff "fake-ip-range" "enable")),
          get-append_other "enhanced-mode" "enable" (from_str "fake-ip") a
              (ground (arith, eq_iff "enhanced-mode" "enable")),
        )
        (enabled_lem true dns)

  pub use_tun-on :
      (config default_tun : Mapping) (source : Bool)
      → let c = use_tun y config true source default_tun in
        (flag "tun" "enable" c ≡ some true) × (flag "dns" "enable" c ≡ some true)
  unfolding use_tun use_dns_for_tun
  use_tun-on config default_tun source =
      let tun =
        revise y "enable" (from_bool true)
          (mapping_of y default_tun (get (from_str "tun") config)) in
      let mid = with_tun y true default_tun config in
      let dns = complete_dns y (mapping_of y empty (get (from_str "dns") mid)) in
      (
        flag-insert_other "dns" "tun" "enable" (from_mapping dns) mid
              (ground (arith, eq_iff "dns" "tun"))
            ∙ (flag-insert "tun" "enable" tun config
                ∙ enabled_lem true (mapping_of y default_tun (get (from_str "tun") config))),
        flag-insert "dns" "enable" dns mid
            ∙ complete_dns-enable (mapping_of y empty (get (from_str "dns") mid)),
      )

  pub use_tun-off :
      (config default_tun : Mapping) (source : Bool)
      → let c = use_tun y config false source default_tun in
        (flag "tun" "enable" c ≡ some false) ⊎ (get (from_str "tun") c ≡ none)
  unfolding use_tun
  use_tun-off config default_tun source =
      let tun =
        revise y "enable" (from_bool false)
          (mapping_of y default_tun (get (from_str "tun") config)) in
      elim (Bool-cases (is_some (get (from_str "tun") config) || source)) [
        | inl t ↦ rw t (
            inl (
              flag-insert "tun" "enable" tun config
              ∙ enabled_lem false (mapping_of y default_tun (get (from_str "tun") config))))
        | inr f ↦ rw f (inr (get-remove "tun" config))
      ]

  pub apply_ipv6-keeps :
      (config : Mapping)
      → let c = apply_ipv6_to_dns y config in
        (get (from_str "tun") c ≡ get (from_str "tun") config)
        × (flag "dns" "enable" c ≡ flag "dns" "enable" config)
        × (flag "dns" "ipv6" c ≡ some (or_false (bool_of (get (from_str "ipv6") c))))
  unfolding apply_ipv6_to_dns
  apply_ipv6-keeps config =
      let b = or_false (bool_of (get (from_str "ipv6") config)) in
      let old = mapping_of y empty (get (from_str "dns") config) in
      let dns = insert (from_str "ipv6") (from_bool b) old in
      (
        get-insert_other "dns" "tun" (from_mapping dns) config (ground (arith, eq_iff "dns" "tun")),
        flag-insert "dns" "enable" dns config
            ∙ rw
                (
                  get-insert_other "ipv6" "enable" (from_bool b) old
                      (ground (arith, eq_iff "ipv6" "enable")),
                  section_lem (get (from_str "dns") config),
                )
                refl,
        flag-insert "dns" "ipv6" dns config
            ∙ rw
                (
                  get-insert "ipv6" (from_bool b) old,
                  get-insert_other "dns" "ipv6" (from_mapping dns) config
                      (ground (arith, eq_iff "dns" "ipv6")),
                )
                (as_bool-from_bool b),
      )

  pub flag_same :
      (name key : String) (c d : Mapping)
      → get (from_str name) c ≡ get (from_str name) d
      → flag name key c ≡ flag name key d
  flag_same name key c d e = rw e refl

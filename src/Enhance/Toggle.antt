-- ===== src/Enhance/Toggle.antt =====
-- The sections of the final configuration that the program keeps control of: `tun` and `dns`, in
-- `enhance` of src-tauri/src/enhance/mod.rs.
use clash_verge_buty.Prelude.{
  ◌≡◌, ◌∙◌, String, Bool, true, false, none, some, List, eq_string, arith, inl, inr, ◌⊎◌,
}
use clash_verge_buty.Config.Profiles.Store.{IProfiles}
use clash_verge_buty.Enhance.Yaml.{Yaml}
use clash_verge_buty.Enhance.Tun.{use_tun}
use clash_verge_buty.Enhance.Chain.{Engine, Disk}
use clash_verge_buty.Enhance.Pipeline.{
  Settings, Scripts, apply_ipv6_to_dns, finish, enhance, or_false,
}
use clash_verge_buty.Enhance.Sorting.{KeepsElements, use_sort-get}
use clash_verge_buty.Enhance.Field.{use_sort}
use clash_verge_buty.Enhance.Sections.{
  flag, bool_of, flag_same, use_tun-on, use_tun-off, apply_ipv6-keeps,
}

module _ (y : Yaml) where
  open y use {
    Value, Mapping, from_str, from_bool, from_mapping, as_bool, as_mapping, empty, get, insert,
    remove, as_bool-from_bool, as_mapping-from_mapping, get-insert, get-insert_other, get-remove,
  }

  -- The last three steps of `enhance`.
  abbrev sealed : (List String → List String) → Mapping → Bool → Bool → Mapping → Mapping
  sealed hashed built enable source default_tun =
      use_sort y hashed (apply_ipv6_to_dns y (use_tun y built enable source default_tun))

  sealed-section :
      (hashed : List String → List String) (built default_tun : Mapping) (enable source : Bool)
      → KeepsElements hashed
      → let c = sealed hashed built enable source default_tun in
        let t = use_tun y built enable source default_tun in
        (get (from_str "tun") c ≡ get (from_str "tun") t)
        × (flag y "dns" "enable" c ≡ flag y "dns" "enable" t)
        × (flag y "dns" "ipv6" c ≡ some (or_false (bool_of y (get (from_str "ipv6") c))))
  sealed-section hashed built default_tun enable source keeps =
      let a = apply_ipv6_to_dns y (use_tun y built enable source default_tun) in
      let (tun, dns, ipv6) = apply_ipv6-keeps y (use_tun y built enable source default_tun) in
      let sorted = use_sort y hashed a in
      (
        use_sort-get y hashed a "tun" keeps ∙ tun,
        flag_same y "dns" "enable" sorted a (use_sort-get y hashed a "dns" keeps) ∙ dns,
        rw (use_sort-get y hashed a "ipv6" keeps)
            (flag_same y "dns" "ipv6" sorted a (use_sort-get y hashed a "dns" keeps) ∙ ipv6),
      )

  sealed-on :
      (hashed : List String → List String) (built default_tun : Mapping) (enable source : Bool)
      → KeepsElements hashed
      → enable ≡ true
      → let c = sealed hashed built enable source default_tun in
        (flag y "tun" "enable" c ≡ some true) × (flag y "dns" "enable" c ≡ some true)
  sealed-on hashed built default_tun false source keeps on = absurd (ground arith)
  sealed-on hashed built default_tun true source keeps on =
      let (tun, dns, ipv6) = sealed-section hashed built default_tun true source keeps in
      let (tun_on, dns_on) = use_tun-on y built default_tun source in
      (flag_same y "tun" "enable" _ _ tun ∙ tun_on, dns ∙ dns_on)

  sealed-off :
      (hashed : List String → List String) (built default_tun : Mapping) (enable source : Bool)
      → KeepsElements hashed
      → enable ≡ false
      → let c = sealed hashed built enable source default_tun in
        (flag y "tun" "enable" c ≡ some false) ⊎ (get (from_str "tun") c ≡ none)
  sealed-off hashed built default_tun true source keeps off = absurd (ground arith)
  sealed-off hashed built default_tun false source keeps off =
      let (tun, dns, ipv6) = sealed-section hashed built default_tun false source keeps in
      elim (use_tun-off y built default_tun source) [
        | inl disabled ↦ inl (flag_same y "tun" "enable" _ _ tun ∙ disabled)
        | inr missing ↦ inr (tun ∙ missing)
      ]

  -- Whatever the profile, the merges, the scripts and the settings of the core say: where the switch
  -- for TUN is on, the final configuration has `tun.enable` and `dns.enable` set to true. (A hash set
  -- holds the elements that were put in.)
  pub enhance-tun_on :
      (engine : Engine y) (hashed : List String → List String) (scripts : Scripts)
      (settings : Settings) (clash_config : Mapping) (disk : Disk y) (p : IProfiles)
      → KeepsElements hashed
      → or_false settings.enable_tun_mode ≡ true
      → let c = (enhance y engine hashed scripts settings clash_config disk p).0 in
        (flag y "tun" "enable" c ≡ some true) × (flag y "dns" "enable" c ≡ some true)
  unfolding enhance finish
  enhance-tun_on engine hashed scripts settings clash_config disk p keeps on =
      sealed-on hashed _ _ (or_false settings.enable_tun_mode) _ keeps on

  -- Where the switch for TUN is off, or not set, the final configuration has `tun.enable` set to
  -- false, or no `tun`, whatever the profile, the merges, the scripts and the settings of the core
  -- say. (A hash set holds the elements that were put in.)
  pub enhance-tun_off :
      (engine : Engine y) (hashed : List String → List String) (scripts : Scripts)
      (settings : Settings) (clash_config : Mapping) (disk : Disk y) (p : IProfiles)
      → KeepsElements hashed
      → or_false settings.enable_tun_mode ≡ false
      → let c = (enhance y engine hashed scripts settings clash_config disk p).0 in
        (flag y "tun" "enable" c ≡ some false) ⊎ (get (from_str "tun") c ≡ none)
  unfolding enhance finish
  enhance-tun_off engine hashed scripts settings clash_config disk p keeps off =
      sealed-off hashed _ _ (or_false settings.enable_tun_mode) _ keeps off

  -- Whatever the profile, the merges, the scripts and the settings say, `dns.ipv6` of the final
  -- configuration is its `ipv6`, or false where that is missing or no Boolean. (A hash set holds the
  -- elements that were put in.)
  pub enhance-ipv6 :
      (engine : Engine y) (hashed : List String → List String) (scripts : Scripts)
      (settings : Settings) (clash_config : Mapping) (disk : Disk y) (p : IProfiles)
      → KeepsElements hashed
      → let c = (enhance y engine hashed scripts settings clash_config disk p).0 in
        flag y "dns" "ipv6" c ≡ some (or_false (bool_of y (get (from_str "ipv6") c)))
  unfolding enhance finish
  enhance-ipv6 engine hashed scripts settings clash_config disk p keeps =
      (sealed-section hashed _ _ (or_false settings.enable_tun_mode) _ keeps).2

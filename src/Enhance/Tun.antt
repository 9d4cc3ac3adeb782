-- ===== src/Enhance/Tun.antt =====
-- src-tauri/src/enhance/tun.rs: the section `tun` follows the switch of the user interface, and
-- `dns` is completed where it is on.
use clash_verge_buty.Prelude.{
  String, Bool, true, false, ◌||◌, Option, none, some, List, [], ◌∷◌, map, if◌then◌else◌,
}
use clash_verge_buty.Enhance.Yaml.{Yaml}

abbrev pub is_some {ℓ} : {A : Type ℓ} → Option A → Bool
is_some none = false
is_some (some a) = true

module _ (y : Yaml) where
  open y use {
    Value, Mapping, from_str, from_bool, from_sequence, from_mapping, as_mapping, empty, get,
    insert, remove,
  }

  -- The two macros.
  abbrev pub revise : String → Value → Mapping → Mapping
  revise key v m = insert (from_str key) v m

  abbrev pub append : String → Value → Mapping → Mapping
  append key v m = if is_some (get (from_str key) m) then m else insert (from_str key) v m

  abbrev pub mapping_or : Mapping → Option Mapping → Mapping
  mapping_or default none = default
  mapping_or default (some m) = m

  -- `value.and_then(Value::as_mapping).cloned().unwrap_or(default)`
  unfoldable pub mapping_of : Mapping → Option Value → Mapping
  mapping_of default none = default
  mapping_of default (some v) = mapping_or default (as_mapping v)

  abbrev pub strings : List String → Value
  strings texts = from_sequence (map from_str texts)

  abbrev pub complete_dns : Mapping → Mapping
  complete_dns dns =
      append "fake-ip-filter"
        (strings ("dns.msftncsi.com" ∷ "www.msftncsi.com" ∷ "www.msftconnecttest.com" ∷ []))
        (append "fallback" (strings []) (
          append "nameserver" (strings ("114.114.114.114" ∷ "223.5.5.5" ∷ "8.8.8.8" ∷ [])) (
            append "fake-ip-range" (from_str "198.18.0.1/16") (
              append "enhanced-mode" (from_str "fake-ip") (revise "enable" (from_bool true) dns)))))

  unfoldable pub use_dns_for_tun : Mapping → Mapping
  unfolding mapping_of
  use_dns_for_tun config =
      revise "dns" (from_mapping (complete_dns (mapping_of empty (get (from_str "dns") config))))
        config

  -- The new `tun`, with its `enable` set to the value given.
  abbrev pub with_tun : Bool → Mapping → Mapping → Mapping
  with_tun enable default_tun config =
      revise "tun"
        (from_mapping (
          revise "enable" (from_bool enable)
            (mapping_of default_tun (get (from_str "tun") config))))
        config

  unfoldable pub use_tun : Mapping → Bool → Bool → Mapping → Mapping
  unfolding use_dns_for_tun
  use_tun config true source_has_tun default_tun =
      use_dns_for_tun (with_tun true default_tun config)
  use_tun config false source_has_tun default_tun =
      if is_some (get (from_str "tun") config) || source_has_tun
      then with_tun false default_tun config
      else remove (from_str "tun") config

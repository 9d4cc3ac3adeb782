-- ===== src/Clash/Agreeing.antt =====
-- The guarded settings of src-tauri/src/config/clash.rs say to a client what the unguarded ones say.
use clash_verge_buty.Prelude.{
  ◌⊎◌, ◌≡◌, refl, sym, ◌∙◌, ap, String, Option, none, some, eq_string, inl, inr,
}
use clash_verge_buty.Enhance.Yaml.{Yaml}
use clash_verge_buty.Clash.{
  Library, read, write, guard_mixed_port, guard_socks_port, guard_port, guard_server_ctrl,
  guard_client_ctrl, guard, server_address, get_client_info, default_ctrl, unwrap_or, and_then,
  trim, secret_of, full_address, shown, client_address,
}
use clash_verge_buty.Clash.Guards.{guarded-again, read-write, read-other, guard-ports}

module _ (lib : Library) where
  open lib use {yaml, from_u64, SocketAddr, parse_address, address_to_string}

  shown-address :
      (found : Option SocketAddr)
      → unwrap_or default_ctrl (shown lib found) ≡ default_ctrl
        ⊎ ((a : SocketAddr) × (unwrap_or default_ctrl (shown lib found) ≡ address_to_string a))
  shown-address none = inl refl
  shown-address (some a) = inr (a, refl)

  -- Whatever the settings say, the guard answers with a printed address.
  text-address :
      (text : Option String)
      → (a : SocketAddr) × (unwrap_or default_ctrl
            (and_then text (λ s. shown lib (parse_address (full_address lib (trim s)))))
          ≡ address_to_string a)
  text-address none = (lib.default_address, sym lib.default_address-to_string)
  text-address (some s) = elim (shown-address (parse_address (full_address lib (trim s)))) [
    | inl e ↦ (lib.default_address, e ∙ sym lib.default_address-to_string)
    | inr (a, e) ↦ (a, e)
  ]

  value-address :
      (v : Option (Yaml.Value yaml))
      → (a : SocketAddr) × (unwrap_or default_ctrl (and_then v (server_address lib))
          ≡ address_to_string a)
  value-address none = (lib.default_address, sym lib.default_address-to_string)
  value-address (some v) = text-address (Yaml.as_str yaml v)

  again-address :
      (a : SocketAddr)
      → server_address lib (Yaml.from_str yaml (address_to_string a)) ≡ some (address_to_string a)
  again-address a =
      rw
        (
          yaml.as_str-from_str (address_to_string a),
          lib.address-trimmed a,
          lib.address-plain a,
          lib.parse_address-to_string a,
        )
        refl

  again-ctrl :
      (m : Yaml.Mapping yaml) (config : Yaml.Mapping yaml)
      → read lib "external-controller" m ≡ some (Yaml.from_str yaml (guard_server_ctrl lib config))
      → guard_server_ctrl lib m ≡ guard_server_ctrl lib config
  unfolding guard_server_ctrl
  again-ctrl m config e =
      let (a, q) = value-address (read lib "external-controller" config) in
      rw (e, q, again-address a) refl

  module _ (c : Yaml.Mapping yaml) where
    abbrev one : Yaml.Mapping yaml
    one = write lib "mixed-port" (from_u64 (guard_mixed_port lib c)) c

    abbrev two : Yaml.Mapping yaml
    two = write lib "socks-port" (from_u64 (guard_socks_port lib c)) one

    abbrev three : Yaml.Mapping yaml
    three = write lib "port" (from_u64 (guard_port lib c)) two

    abbrev ctrl : Yaml.Value yaml
    ctrl = Yaml.from_str yaml (guard_server_ctrl lib c)

    mixed-again : guard_mixed_port lib (guard lib c) ≡ guard_mixed_port lib c
    unfolding guard guard_mixed_port
    mixed-again =
        guarded-again lib "mixed-port" 7897 (guard_mixed_port lib c) (guard lib c)
          (guard-ports lib c).0
          (read-other lib "mixed-port" "external-controller" ctrl three refl
            ∙ read-other lib "mixed-port" "port" (from_u64 (guard_port lib c)) two refl
            ∙ read-other lib "mixed-port" "socks-port" (from_u64 (guard_socks_port lib c)) one refl
            ∙ read-write lib "mixed-port" (from_u64 (guard_mixed_port lib c)) c)

    socks-again : guard_socks_port lib (guard lib c) ≡ guard_socks_port lib c
    unfolding guard guard_socks_port
    socks-again =
        guarded-again lib "socks-port" 7898 (guard_socks_port lib c) (guard lib c)
          (guard-ports lib c).1
          (read-other lib "socks-port" "external-controller" ctrl three refl
            ∙ read-other lib "socks-port" "port" (from_u64 (guard_port lib c)) two refl
            ∙ read-write lib "socks-port" (from_u64 (guard_socks_port lib c)) one)

    plain-again : guard_port lib (guard lib c) ≡ guard_port lib c
    unfolding guard guard_port
    plain-again =
        guarded-again lib "port" 7899 (guard_port lib c) (guard lib c) (guard-ports lib c).2 (
          read-other lib "port" "external-controller" ctrl three refl
          ∙ read-write lib "port" (from_u64 (guard_port lib c)) two)

    server-again : guard_server_ctrl lib (guard lib c) ≡ guard_server_ctrl lib c
    unfolding guard
    server-again = again-ctrl (guard lib c) c (read-write lib "external-controller" ctrl three)

    secret-again : read lib "secret" (guard lib c) ≡ read lib "secret" c
    unfolding guard
    secret-again =
        read-other lib "secret" "external-controller" ctrl three refl
        ∙ read-other lib "secret" "port" (from_u64 (guard_port lib c)) two refl
        ∙ read-other lib "secret" "socks-port" (from_u64 (guard_socks_port lib c)) one refl
        ∙ read-other lib "secret" "mixed-port" (from_u64 (guard_mixed_port lib c)) c refl

    -- A client is told the same before the guard and after it: the guard changes no port, address or
    -- secret that the program uses.
    pub guard-client_info : get_client_info lib (guard lib c) ≡ get_client_info lib c
    unfolding get_client_info guard_client_ctrl
    guard-client_info i = record {
      mixed_port = mixed-again i;
      socks_port = socks-again i;
      port = plain-again i;
      server = ap (λ s. client_address lib (parse_address s)) server-again i;
      secret = ap (λ v. and_then v (secret_of lib)) secret-again i;
    }

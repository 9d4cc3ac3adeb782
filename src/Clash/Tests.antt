-- ===== src/Clash/Tests.antt =====
-- Tests of src-tauri/src/config/clash.rs, and its theorems at concrete inputs.
use clash_verge_buty.Prelude.{◌≡◌, ◌<◌, refl, false, none, some, eq_string, ◌==◌, if◌then◌else◌}
use clash_verge_buty.Enhance.Tests.Trees.{
  Fields, text, amount, nil, field, amount_of, is_amount, tree_yaml,
}
use clash_verge_buty.Clash.{
  Library, guard_mixed_port, guard_socks_port, guard_port, guard_server_ctrl, guard,
  get_client_info, trim, parse_u16,
}
use clash_verge_buty.Clash.Guards.{guard-ports}
use clash_verge_buty.Clash.Agreeing.{guard-client_info}

trimmed : trim "127.0.0.1:9097" ≡ "127.0.0.1:9097"
unfolding trim
trimmed = refl

-- A network with one address.
abbrev one_address : Library
one_address = record {
  yaml = tree_yaml;
  from_u64 = amount;
  as_u64 = amount_of;
  is_number = is_amount;
  number_to_string = λ v. "0";
  SocketAddr = Unit;
  parse_address = λ s. if s == "127.0.0.1:9097" then some tt else none;
  address_to_string = λ a. "127.0.0.1:9097";
  is_unspecified = λ a. false;
  set_localhost = λ a. a;
  as_u64-from_u64 = λ n. refl;
  as_str-from_u64 = λ n. refl;
  is_number-from_u64 = λ n. refl;
  parse_address-to_string = λ a. refl;
  address-trimmed = λ a. trimmed;
  address-plain = λ a. refl;
  default_address = tt;
  default_address-to_string = refl;
}

-- The port 65537 is taken for 1.
abbrev odd : Fields
odd = field "mixed-port" (amount 65537) (
    field "socks-port" (text "+7000")
      (field "port" (text "70000") (field "external-controller" (text "  :9097 ") nil)))

odd_ports :
    (guard_mixed_port one_address odd ≡ 1)
    × (guard_socks_port one_address odd ≡ 7000)
    × (guard_port one_address odd ≡ 7899)
unfolding guard_mixed_port guard_socks_port guard_port parse_u16
odd_ports = (refl, refl, refl)

odd_address : guard_server_ctrl one_address odd ≡ "127.0.0.1:9097"
unfolding guard_server_ctrl trim
odd_address = refl

guard-ports_example :
    ((0 < guard_mixed_port one_address odd) × (guard_mixed_port one_address odd < 65536))
    × ((0 < guard_socks_port one_address odd) × (guard_socks_port one_address odd < 65536))
    × ((0 < guard_port one_address odd) × (guard_port one_address odd < 65536))
guard-ports_example = guard-ports one_address odd

guard-client_info_example :
    get_client_info one_address (guard one_address odd) ≡ get_client_info one_address odd
guard-client_info_example = guard-client_info one_address odd

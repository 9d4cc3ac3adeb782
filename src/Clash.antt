-- ===== src/Clash.antt =====
-- src-tauri/src/config/clash.rs: the settings of the core, and the guards on its ports and addresses.
-- Values are those of the interface of serde_yaml, with its numbers; addresses are a parameter.
pub mod Guards
pub mod Agreeing
mod Tests
use Prim.Native.Char.{Char, code}
use Prim.Native.String.{[] as end_of_text, ◌∷◌ as ◌⊳◌}
use clash_verge_buty.Prelude.Text.{concat}
use clash_verge_buty.Prelude.{
  ℕ, ◌+◌, ◌-◌, ◌*◌, ◌%◌, ◌≡◌, String, Bool, true, false, ◌&&◌, ◌||◌, Option, none, some, List, [],
  ◌∷◌, ◌==◌, eq_nat, eq_string, leb, ltb, if◌then◌else◌,
}
use text.Mathlib.Text.{starts_with}
use clash_verge_buty.Scheduler.Periodic.{is_whitespace}
use clash_verge_buty.Enhance.Yaml.{Yaml}

-- `str::parse::<u16>`
abbrev digit : Char → Option ℕ
digit c = let n = code c in if leb 48 n && leb n 57 then some (n - 48) else none

abbrev with_digit : Option ℕ → ℕ → (ℕ → Option ℕ) → Option ℕ
with_digit none n rest = none
with_digit (some d) n rest = rest (n * 10 + d)

digits : String → ℕ → Option ℕ
digits end_of_text n = some n
digits (c ⊳ s) n = with_digit (digit c) n (digits s)

in_u16 : Option ℕ → Option ℕ
in_u16 none = none
in_u16 (some n) = if ltb n 65536 then some n else none

abbrev number : String → Option ℕ
number end_of_text = none
number (c ⊳ s) = in_u16 (digits (c ⊳ s) 0)

unfoldable pub parse_u16 : String → Option ℕ
unfolding digits in_u16
parse_u16 end_of_text = none
parse_u16 (c ⊳ s) = if code c == 43 then number s else number (c ⊳ s)

-- `str::trim`
abbrev trim_start : String → String
trim_start end_of_text = end_of_text
trim_start (c ⊳ s) = let rest = trim_start s in if is_whitespace c then rest else c ⊳ s

abbrev trimmed_end : Char → String → String
trimmed_end c end_of_text = if is_whitespace c then end_of_text else c ⊳ end_of_text
trimmed_end c (d ⊳ s) = c ⊳ d ⊳ s

abbrev trim_end : String → String
trim_end end_of_text = end_of_text
trim_end (c ⊳ s) = trimmed_end c (trim_end s)

unfoldable pub trim : String → String
trim s = trim_end (trim_start s)

-- Numbers among the values, and `SocketAddr`.
pub record Library : Type 1 where
  pub yaml : Yaml
  pub from_u64 : ℕ → Yaml.Value yaml
  pub as_u64 : Yaml.Value yaml → Option ℕ
  pub is_number : Yaml.Value yaml → Bool
  pub number_to_string : Yaml.Value yaml → String
  pub SocketAddr : Type 0
  pub parse_address : String → Option SocketAddr
  pub address_to_string : SocketAddr → String
  pub is_unspecified : SocketAddr → Bool
  pub set_localhost : SocketAddr → SocketAddr
  pub as_u64-from_u64 : (n : ℕ) → as_u64 (from_u64 n) ≡ some n
  pub as_str-from_u64 : (n : ℕ) → Yaml.as_str yaml (from_u64 n) ≡ none
  pub is_number-from_u64 : (n : ℕ) → is_number (from_u64 n) ≡ true
  pub parse_address-to_string : (a : SocketAddr) → parse_address (address_to_string a) ≡ some a
  pub address-trimmed : (a : SocketAddr) → trim (address_to_string a) ≡ address_to_string a
  pub address-plain : (a : SocketAddr) → starts_with (address_to_string a) ":" ≡ false
  pub default_address : SocketAddr
  pub default_address-to_string : address_to_string default_address ≡ "127.0.0.1:9097"

abbrev pub unwrap_or {ℓ} : {A : Type ℓ} → A → Option A → A
unwrap_or a none = a
unwrap_or a (some b) = b

abbrev pub and_then {ℓ κ} : {A : Type ℓ} {B : Type κ} → Option A → (A → Option B) → Option B
and_then none f = none
and_then (some a) f = f a

abbrev pub default_ctrl : String
default_ctrl = "127.0.0.1:9097"

module _ (lib : Library) where
  open lib use {
    yaml, from_u64, as_u64, is_number, number_to_string, SocketAddr, parse_address,
    address_to_string, is_unspecified, set_localhost,
  }

  abbrev Value : Type 0
  Value = Yaml.Value yaml

  abbrev Mapping : Type 0
  Mapping = Yaml.Mapping yaml

  abbrev pub read : String → Mapping → Option Value
  read key m = Yaml.get yaml (Yaml.from_str yaml key) m

  abbrev pub write : String → Value → Mapping → Mapping
  write key v m = Yaml.insert yaml (Yaml.from_str yaml key) v m

  -- `as u16` keeps the low 16 bits.
  abbrev port_number : Option ℕ → Option ℕ
  port_number none = none
  port_number (some n) = some (n % 65536)

  abbrev port_text : Option String → Value → Option ℕ
  port_text (some s) v = parse_u16 s
  port_text none v = if is_number v then port_number (as_u64 v) else none

  abbrev pub port_value : Value → Option ℕ
  port_value v = port_text (Yaml.as_str yaml v) v

  abbrev pub nonzero_or : ℕ → ℕ → ℕ
  nonzero_or default port = if port == 0 then default else port

  abbrev pub guarded_port : String → ℕ → Mapping → ℕ
  guarded_port key default config =
      nonzero_or default (unwrap_or default (and_then (read key config) port_value))

  unfoldable pub guard_mixed_port : Mapping → ℕ
  unfolding parse_u16
  guard_mixed_port config = guarded_port "mixed-port" 7897 config

  unfoldable pub guard_socks_port : Mapping → ℕ
  unfolding parse_u16
  guard_socks_port config = guarded_port "socks-port" 7898 config

  unfoldable pub guard_port : Mapping → ℕ
  unfolding parse_u16
  guard_port config = guarded_port "port" 7899 config

  abbrev pub full_address : String → String
  full_address s = if starts_with s ":" then concat "127.0.0.1" s else s

  abbrev pub shown : Option SocketAddr → Option String
  shown none = none
  shown (some a) = some (address_to_string a)

  abbrev pub server_address : Value → Option String
  server_address v =
      and_then (Yaml.as_str yaml v) (λ s. shown (parse_address (full_address (trim s))))

  unfoldable pub guard_server_ctrl : Mapping → String
  unfolding trim
  guard_server_ctrl config =
      unwrap_or default_ctrl (and_then (read "external-controller" config) server_address)

  abbrev pub client_address : Option SocketAddr → String
  client_address none = default_ctrl
  client_address (some socket) =
      address_to_string (if is_unspecified socket then set_localhost socket else socket)

  unfoldable pub guard_client_ctrl : Mapping → String
  guard_client_ctrl config = client_address (parse_address (guard_server_ctrl config))

  unfoldable pub guard : Mapping → Mapping
  guard config = write "external-controller" (Yaml.from_str yaml (guard_server_ctrl config)) (
      write "port" (from_u64 (guard_port config)) (
        write "socks-port" (from_u64 (guard_socks_port config))
          (write "mixed-port" (from_u64 (guard_mixed_port config)) config)))

  unfoldable pub patch_entries : List (Value × Value) → Mapping → Mapping
  patch_entries [] m = m
  patch_entries ((key, value) ∷ patch) m = patch_entries patch (Yaml.insert yaml key value m)

  unfoldable pub patch_config : Mapping → Mapping → Mapping
  unfolding patch_entries
  patch_config patch m = patch_entries (Yaml.entries yaml patch) m

  pub record ClashInfo : Type 0 where
    pub mixed_port : ℕ
    pub socks_port : ℕ
    pub port : ℕ
    pub server : String
    pub secret : Option String

  abbrev bool_text : Option Bool → Value → Option String
  bool_text (some true) v = some "true"
  bool_text (some false) v = some "false"
  bool_text none v = if is_number v then some (number_to_string v) else none

  abbrev secret_text : Option String → Value → Option String
  secret_text (some s) v = some s
  secret_text none v = bool_text (Yaml.as_bool yaml v) v

  abbrev pub secret_of : Value → Option String
  secret_of v = secret_text (Yaml.as_str yaml v) v

  unfoldable pub get_client_info : Mapping → ClashInfo
  unfolding guard_client_ctrl
  get_client_info config = record {
    mixed_port = guard_mixed_port config;
    socks_port = guard_socks_port config;
    port = guard_port config;
    server = guard_client_ctrl config;
    secret = and_then (read "secret" config) secret_of;
  }

  abbrev tun_template : Mapping
  tun_template = write "mtu" (from_u64 9000) (
      write "dns-hijack" (Yaml.from_sequence yaml (Yaml.from_str yaml "any:53" ∷ [])) (
        write "auto-detect-interface" (Yaml.from_bool yaml true) (
          write "strict-route" (Yaml.from_bool yaml false) (
            write "auto-route" (Yaml.from_bool yaml true) (
              write "device" (Yaml.from_str yaml "clash-astra")
                (write "stack" (Yaml.from_str yaml "gvisor") (Yaml.empty yaml)))))))

  -- The entries of the template, in its order.
  abbrev template_entries : List (String × Value)
  template_entries =
      ("mixed-port", from_u64 7897)
      ∷ ("socks-port", from_u64 7898)
      ∷ ("port", from_u64 7899)
      ∷ ("log-level", Yaml.from_str yaml "info")
      ∷ ("allow-lan", Yaml.from_bool yaml false)
      ∷ ("ipv6", Yaml.from_bool yaml false)
      ∷ ("mode", Yaml.from_str yaml "rule")
      ∷ ("external-controller", Yaml.from_str yaml "127.0.0.1:9097")
      ∷ ("secret", Yaml.from_str yaml "")
      ∷ ("find-process-mode", Yaml.from_str yaml "always")
      ∷ ("tun", Yaml.from_mapping yaml tun_template)
      ∷ []

  abbrev write_all : List (String × Value) → Mapping → Mapping
  write_all [] m = m
  write_all ((key, v) ∷ entries) m = write_all entries (write key v m)

  unfoldable pub template : Mapping
  template = write_all template_entries (Yaml.empty yaml)

  abbrev added : Option Value → String → Value → Mapping × Bool → Mapping × Bool
  added (some old) key v r = r
  added none key v (m, materialized) = (write key v m, true)

  -- Missing keys are taken from the template; the answer says whether there were any.
  unfoldable pub materialize : List (String × Value) → Mapping × Bool → Mapping × Bool
  materialize [] r = r
  materialize ((key, v) ∷ entries) r = materialize entries (added (read key r.0) key v r)

  -- `IClashTemp::new`, on what the file holds; the second answer says whether the file is written.
  unfoldable pub new_config : Option Mapping → Mapping × Bool
  unfolding materialize guard template
  new_config none = (template, false)
  new_config (some m) = let r = materialize template_entries (m, false) in (guard r.0, r.1)

-- ===== src/Clash/Guards.antt =====
-- The guards of src-tauri/src/config/clash.rs: what they let through, and that they agree.
use clash_verge_buty.Prelude.{
  ℕ, ◌<◌, ◌≡◌, refl, String, false, Option, none, some, ◌==◌, eq_nat, eq_string, arith, eq_iff,
  Bool-cases, inl, inr,
}
use clash_verge_buty.Enhance.Yaml.{Yaml}
use clash_verge_buty.Clash.{
  Library, read, write, port_value, nonzero_or, guarded_port, guard_mixed_port, guard_socks_port,
  guard_port, unwrap_or, and_then, parse_u16, in_u16, number, digits, port_text, port_number,
}
use Prim.Native.Char.{code}
use Prim.Native.String.{[] as end_of_text, ◌∷◌ as ◌⊳◌}

in_u16-bounds : (o : Option ℕ) (n : ℕ) → in_u16 o ≡ some n → n < 65536
unfolding in_u16
in_u16-bounds none n h = absurd (ground arith)
in_u16-bounds (some k) n h = ground arith

number-bounds : (s : String) (n : ℕ) → number s ≡ some n → n < 65536
number-bounds end_of_text n h = absurd (ground arith)
number-bounds (c ⊳ s) n h = in_u16-bounds (digits (c ⊳ s) 0) n h

parse-bounds : (s : String) (n : ℕ) → parse_u16 s ≡ some n → n < 65536
unfolding parse_u16
parse-bounds end_of_text n = λ h. absurd (ground arith)
parse-bounds (c ⊳ s) n = elim (Bool-cases (code c == 43)) [
  | inl y ↦ rw y (number-bounds s n)
  | inr m ↦ rw m (number-bounds (c ⊳ s) n)
]

module _ (lib : Library) where
  open lib use {yaml, from_u64, as_u64, is_number}

  low-bounds : (o : Option ℕ) (n : ℕ) → port_number lib o ≡ some n → n < 65536
  low-bounds none n h = absurd (ground arith)
  low-bounds (some k) n h = ground arith

  text-bounds :
      (o : Option String) (v : Yaml.Value yaml) (n : ℕ) → port_text lib o v ≡ some n → n < 65536
  text-bounds (some s) v n = parse-bounds s n
  text-bounds none v n = elim (Bool-cases (is_number v)) [
    | inl y ↦ rw y (low-bounds (as_u64 v) n)
    | inr m ↦ rw m (λ h. absurd (ground arith))
  ]

  chosen-bounds :
      (o : Option ℕ) (default : ℕ)
      → ((n : ℕ) → o ≡ some n → n < 65536)
      → 0 < default
      → default < 65536
      → (0 < nonzero_or lib default (unwrap_or default o))
        × (nonzero_or lib default (unwrap_or default o) < 65536)
  chosen-bounds none default k p q = ground arith
  chosen-bounds (some n) default k p q = ground (arith, k n refl)

  value-bounds :
      (o : Option (Yaml.Value yaml)) (n : ℕ) → and_then o (port_value lib) ≡ some n → n < 65536
  value-bounds none n h = absurd (ground arith)
  value-bounds (some v) n h = text-bounds (Yaml.as_str yaml v) v n h

  pub guarded-bounds :
      (key : String) (default : ℕ) (config : Yaml.Mapping yaml)
      → 0 < default
      → default < 65536
      → (0 < guarded_port lib key default config) × (guarded_port lib key default config < 65536)
  guarded-bounds key default config p q =
      chosen-bounds (and_then (read lib key config) (port_value lib)) default
        (value-bounds (read lib key config)) p q

  -- Whatever the settings hold (texts, numbers of any size, other values, or nothing), the three ports
  -- are between 1 and 65535.
  pub guard-ports :
      (config : Yaml.Mapping yaml)
      → ((0 < guard_mixed_port lib config) × (guard_mixed_port lib config < 65536))
        × ((0 < guard_socks_port lib config) × (guard_socks_port lib config < 65536))
        × ((0 < guard_port lib config) × (guard_port lib config < 65536))
  unfolding guard_mixed_port guard_socks_port guard_port
  guard-ports config = (
    guarded-bounds "mixed-port" 7897 config (omega arith) (omega arith),
    guarded-bounds "socks-port" 7898 config (omega arith) (omega arith),
    guarded-bounds "port" 7899 config (omega arith) (omega arith),
  )

  number-value : (n : ℕ) → n < 65536 → port_value lib (from_u64 n) ≡ some n
  number-value n h =
      rw (lib.as_str-from_u64 n, lib.is_number-from_u64 n, lib.as_u64-from_u64 n) (ground arith)

  pub guarded-again :
      (key : String) (default n : ℕ) (config : Yaml.Mapping yaml)
      → (0 < n) × (n < 65536)
      → read lib key config ≡ some (from_u64 n)
      → guarded_port lib key default config ≡ n
  guarded-again key default n config (p, q) e = rw (e, number-value n q) (ground arith)

  pub read-write :
      (key : String) (v : Yaml.Value yaml) (m : Yaml.Mapping yaml)
      → read lib key (write lib key v m) ≡ some v
  read-write key v m = yaml.get-insert key v m

  pub read-other :
      (key other : String) (v : Yaml.Value yaml) (m : Yaml.Mapping yaml)
      → (other == key) ≡ false
      → read lib key (write lib other v m) ≡ read lib key m
  read-other key other v m n =
      yaml.get-insert_other other key v m (ground (arith, eq_iff other key))

-- ===== src/Enhance/Field.antt =====
-- src-tauri/src/enhance/field.rs: filters on the keys of a configuration, and their order.
use Prim.Native.Nat.{compare, Ordering}
use Prim.Native.Char.{Char, char, IsScalar}
use Prim.Native.String.{[] as end_of_text, ◌∷◌ as ◌⊳◌}
use clash_verge_buty.Prelude.{
  ℕ, ◌+◌, ◌≤◌, ◌≡◌, String, Option, none, some, List, [], ◌∷◌, ◌++◌, eq_string, if◌then◌else◌,
  contains, retain, not, arith, leb, Bool-cases, inl, inr,
}
use clash_verge_buty.Enhance.Yaml.{Yaml}

abbrev pub handle_fields : List String
handle_fields =
    "mode" ∷ "mixed-port" ∷ "socks-port" ∷ "port" ∷ "allow-lan" ∷ "log-level" ∷ "ipv6" ∷ "secret"
    ∷ "external-controller" ∷ []

abbrev pub default_fields : List String
default_fields = "proxies" ∷ "proxy-providers" ∷ "proxy-groups" ∷ "rule-providers" ∷ "rules" ∷ []

scalar_lem : (n : ℕ) → n ≤ 90 → IsScalar (n + 32)
scalar_lem n h = let small : compare (n + 32) 55296 ≡ Ordering.lt = ground arith in rw small tt

-- `make_ascii_lowercase`, of a character and of a text.
lower_char : Char → Char
unfolding scalar_lem
lower_char (char n p) = elim (Bool-cases (leb n 90)) [
  | inl t ↦ if leb 65 n then char (n + 32) (scalar_lem n (ground arith)) else char n p
  | inr f ↦ char n p
]

unfoldable pub make_ascii_lowercase : String → String
unfolding lower_char
make_ascii_lowercase end_of_text = end_of_text
make_ascii_lowercase (c ⊳ s) = lower_char c ⊳ make_ascii_lowercase s

-- The elements of the first list that the second does not have: `HashSet::difference`.
abbrev pub difference : List String → List String → List String
difference xs ys = retain (λ x. not (contains ys x)) xs

module _ (y : Yaml) where
  open y use {Value, Mapping, from_str, as_str, empty, get, insert, entries, keys}

  abbrev pub put_filtered : List String → Option String → Value → Mapping → Mapping
  put_filtered filter none value ret = ret
  put_filtered filter (some k) value ret =
      if contains filter k then insert (from_str k) value ret else ret

  abbrev pub filter_entries : List String → List (Value × Value) → Mapping → Mapping
  filter_entries filter [] ret = ret
  filter_entries filter ((key, value) ∷ rest) ret =
      filter_entries filter rest (put_filtered filter (as_str key) value ret)

  unfoldable pub use_filter : Mapping → List String → Mapping
  use_filter config filter = filter_entries filter (entries config) empty

  unfoldable pub lowercase_entries : List (Value × Value) → Mapping → Mapping
  unfolding make_ascii_lowercase
  lowercase_entries [] ret = ret
  lowercase_entries ((key, value) ∷ rest) ret = elim (as_str key) [
    | none ↦ lowercase_entries rest ret
    | some k ↦ lowercase_entries rest (insert (from_str (make_ascii_lowercase k)) value ret)
  ]

  unfoldable pub use_lowercase : Mapping → Mapping
  unfolding lowercase_entries
  use_lowercase config = lowercase_entries (entries config) empty

  abbrev pub texts_of : List Value → List String
  texts_of [] = []
  texts_of (v ∷ vs) = elim (as_str v) [ none ↦ texts_of vs | some s ↦ s ∷ texts_of vs ]

  -- One of the three loops of `use_sort`.
  abbrev pub copied : Mapping → String → Option Value → Mapping → Mapping
  copied config key none ret = ret
  copied config key (some value) ret = insert (from_str key) value ret

  unfoldable pub copy_all : Mapping → List String → Mapping → Mapping
  copy_all config [] ret = ret
  copy_all config (key ∷ rest) ret =
      copy_all config rest (copied config key (get (from_str key) config) ret)

  -- `hashed` is the order in which a `HashSet` gives its elements.
  unfoldable pub use_sort : (List String → List String) → Mapping → Mapping
  use_sort hashed config =
      let others = hashed (difference (texts_of (keys config)) (handle_fields ++ default_fields)) in
      copy_all config default_fields (copy_all config others (copy_all config handle_fields empty))

  lowercase_texts : List String → List String
  unfolding make_ascii_lowercase
  lowercase_texts [] = []
  lowercase_texts (s ∷ rest) = make_ascii_lowercase s ∷ lowercase_texts rest

  unfoldable pub use_keys : Mapping → List String
  unfolding lowercase_texts
  use_keys config = lowercase_texts (texts_of (keys config))

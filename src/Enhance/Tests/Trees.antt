-- ===== src/Enhance/Tests/Trees.antt =====
-- A concrete instance of the interface of YAML values: mappings as lists of fields under texts.
use clash_verge_buty.Prelude.{
  ℕ, ◌≡◌, ◌≢◌, refl, ap, String, Bool, true, false, Option, none, some, List, [], ◌∷◌, ◌++◌, ◌==◌,
  eq_string, eq_iff, if◌then◌else◌, arith, Bool-cases, inl, inr,
}
use clash_verge_buty.Enhance.Yaml.{Yaml}

mutual
  pub data Tree : Type 0 where
    text : String → Tree
    truth : Bool → Tree
    amount : ℕ → Tree
    sequence : Fields → Tree
    mapping : Fields → Tree

  pub data Fields : Type 0 where
    nil : Fields
    field : String → Tree → Fields → Fields

abbrev pub text_of : Tree → Option String
text_of (text s) = some s
text_of (truth b) = none
text_of (amount n) = none
text_of (sequence fs) = none
text_of (mapping fs) = none

abbrev pub truth_of : Tree → Option Bool
truth_of (text s) = none
truth_of (truth b) = some b
truth_of (amount n) = none
truth_of (sequence fs) = none
truth_of (mapping fs) = none

abbrev pub fields_of : Tree → Option Fields
fields_of (text s) = none
fields_of (truth b) = none
fields_of (amount n) = none
fields_of (sequence fs) = none
fields_of (mapping fs) = some fs

abbrev pub amount_of : Tree → Option ℕ
amount_of (text s) = none
amount_of (truth b) = none
amount_of (amount n) = some n
amount_of (sequence fs) = none
amount_of (mapping fs) = none

abbrev pub is_amount : Tree → Bool
is_amount (text s) = false
is_amount (truth b) = false
is_amount (amount n) = true
is_amount (sequence fs) = false
is_amount (mapping fs) = false

abbrev pub values : Fields → List Tree
values nil = []
values (field s v fs) = v ∷ values fs

abbrev pub items_of_tree : Tree → Option (List Tree)
items_of_tree (text s) = none
items_of_tree (truth b) = none
items_of_tree (amount n) = none
items_of_tree (sequence fs) = some (values fs)
items_of_tree (mapping fs) = none

abbrev pub numbered : List Tree → Fields
numbered [] = nil
numbered (v ∷ vs) = field "" v (numbered vs)

abbrev pub find_field : String → Fields → Option Tree
find_field s nil = none
find_field s (field k v fs) = if k == s then some v else find_field s fs

abbrev pub set_field : String → Tree → Fields → Fields
set_field s v nil = field s v nil
set_field s v (field k w fs) =
    let rest = set_field s v fs in if k == s then field k v fs else field k w rest

abbrev pub drop_field : String → Fields → Fields
drop_field s nil = nil
drop_field s (field k w fs) = let rest = drop_field s fs in if k == s then rest else field k w rest

abbrev pub names : Fields → List Tree
names nil = []
names (field k v fs) = text k ∷ names fs

-- From the last field to the first, which is the one that counts.
abbrev pub pairs : Fields → List (Tree × Tree)
pairs nil = []
pairs (field k v fs) = pairs fs ++ (text k, v) ∷ []

abbrev pub extended : Fields → Fields → Fields
extended fs nil = fs
extended fs (field k v more) = extended (set_field k v fs) more

abbrev pub no_fields : Fields → Bool
no_fields nil = true
no_fields (field k v fs) = false

abbrev pub with_text {ℓ} : {A : Type ℓ} → A → (String → A) → Tree → A
with_text other f (text s) = f s
with_text other f (truth b) = other
with_text other f (amount n) = other
with_text other f (sequence fs) = other
with_text other f (mapping fs) = other

pub values-numbered : (vs : List Tree) → values (numbered vs) ≡ vs
values-numbered [] = refl
values-numbered (v ∷ vs) = ap (λ l. v ∷ l) (values-numbered vs)

pub numbered_lem : (vs : List Tree) → items_of_tree (sequence (numbered vs)) ≡ some vs
numbered_lem vs = ap some (values-numbered vs)

pub find-set :
    (s t : String) (v : Tree) (fs : Fields)
    → find_field t (set_field s v fs) ≡ (if s == t then some v else find_field t fs)
find-set s t v nil = refl
find-set s t v (field k w fs) =
    ground (arith, find-set s t v fs, eq_iff k s, eq_iff k t, eq_iff s t)

pub find-set_same : (s : String) (v : Tree) (fs : Fields) → find_field s (set_field s v fs) ≡ some v
find-set_same s v fs = ground (arith, find-set s s v fs, eq_iff s s)

pub find-set_other :
    (s t : String) (v : Tree) (fs : Fields)
    → s ≢ t
    → find_field t (set_field s v fs) ≡ find_field t fs
find-set_other s t v fs n = ground (arith, find-set s t v fs, eq_iff s t)

pub find-drop : (s : String) (fs : Fields) → find_field s (drop_field s fs) ≡ none
find-drop s nil = refl
find-drop s (field k w fs) = ground (arith, find-drop s fs, eq_iff k s)

pub find-names :
    (s : String) (v : Tree) (fs : Fields)
    → find_field s fs ≡ some v
    → (xs : List Tree) × (ys : List Tree) × (names fs ≡ xs ++ text s ∷ ys)
find-names s v nil e = absurd (ground arith)
find-names s v (field k w fs) e = elim (Bool-cases (k == s)) [
  | inl t ↦ ([], names fs, ground (arith, eq_iff k s))
  | inr f ↦
      let (xs, ys, is) = find-names s v fs (ground arith) in
      (text k ∷ xs, ys, ap (λ l. text k ∷ l) is)
]

pub nothing_found : (k : Tree) → with_text {A = Option Tree} none (λ s. none) k ≡ none
nothing_found (text s) = refl
nothing_found (truth b) = refl
nothing_found (amount n) = refl
nothing_found (sequence fs) = refl
nothing_found (mapping fs) = refl

abbrev pub tree_yaml : Yaml
tree_yaml = record {
  Value = Tree;
  Mapping = Fields;
  from_str = text;
  from_bool = truth;
  from_sequence = λ vs. sequence (numbered vs);
  from_mapping = mapping;
  as_str = text_of;
  as_bool = truth_of;
  as_sequence = items_of_tree;
  as_mapping = fields_of;
  empty = nil;
  is_empty = no_fields;
  get = λ k fs. with_text none (λ s. find_field s fs) k;
  insert = λ k v fs. with_text fs (λ s. set_field s v fs) k;
  remove = λ k fs. with_text fs (λ s. drop_field s fs) k;
  entries = pairs;
  keys = names;
  extend = extended;
  as_str-from_str = λ s. refl;
  as_bool-from_bool = λ b. refl;
  as_sequence-from_sequence = numbered_lem;
  as_mapping-from_mapping = λ m. refl;
  get-empty = λ k. nothing_found k;
  get-insert = λ s v m. find-set_same s v m;
  get-insert_other = λ s t v m n. find-set_other s t v m n;
  get-remove = find-drop;
  keys-get = find-names;
}

-- ===== src/Config/Profiles/Item.antt =====
-- src-tauri/src/config/prfitem.rs: a profile item, its options, and the constructors that need no
-- network.
use clash_verge_buty.Prelude.{
  ℕ, String, Bool, ◌&&◌, Option, none, some, List, ◌==◌, eq_string, eq_option,
}

abbrev pub global_script_uid : String
global_script_uid = "__global_script__"

abbrev pub global_script_file : String
global_script_file = "global-script.js"

abbrev pub global_script_name : String
global_script_name = "Global Script"

abbrev pub global_script_desc : String
global_script_desc = "Global Script"

pub record PrfSelected : Type 0 where
  pub name : Option String
  pub now : Option String

pub record PrfExtra : Type 0 where
  pub upload : ℕ
  pub download : ℕ
  pub total : ℕ
  pub expire : ℕ

pub record PrfOption : Type 0 where
  pub user_agent : Option String
  pub with_proxy : Option Bool
  pub self_proxy : Option Bool
  pub update_interval : Option ℕ
  pub danger_accept_invalid_certs : Option Bool

pub record PrfItem : Type 0 where
  pub uid : Option String
  pub itype : Option String
  pub name : Option String
  pub file : Option String
  pub desc : Option String
  pub url : Option String
  pub selected : Option (List PrfSelected)
  pub extra : Option PrfExtra
  pub updated : Option ℕ
  pub option : Option PrfOption
  pub file_data : Option String

-- `Option::or`.
abbrev pub or_else {ℓ} : {A : Type ℓ} → Option A → Option A → Option A
or_else none b = b
or_else (some a) b = some a

unfoldable pub merge : Option PrfOption → Option PrfOption → Option PrfOption
merge (some a) (some b) = some (record {
  user_agent = or_else b.user_agent a.user_agent;
  with_proxy = or_else b.with_proxy a.with_proxy;
  self_proxy = or_else b.self_proxy a.self_proxy;
  update_interval = or_else b.update_interval a.update_interval;
  danger_accept_invalid_certs = or_else b.danger_accept_invalid_certs a.danger_accept_invalid_certs;
})
merge (some a) none = some a
merge none other = other

-- `now` is the timestamp that the source takes from the clock.
unfoldable pub global_script : ℕ → PrfItem
global_script now = record {
  uid = some global_script_uid;
  itype = some "script";
  name = some global_script_name;
  file = some global_script_file;
  desc = some global_script_desc;
  url = none;
  selected = none;
  extra = none;
  updated = some now;
  option = none;
  file_data = none;
}

unfoldable pub is_global_script : PrfItem → Bool
is_global_script item = item.uid == some global_script_uid && item.itype == some "script"

-- ===== src/Secrets/Settings.antt =====
-- `split_vpn` with `flatten_str_map`, and nm-openvpn3-service/src/connection.rs: what is read from
-- the settings of a connection.
use nm_openvpn.Base.{List, Option, Str, [], if◌then◌else◌, map, none, some, str, ◌∷◌}
use nm_openvpn.Text.{is_empty, split_once, strip_prefix}
use nm_openvpn.Base.Maps.{Map, empty, insert}

-- The conversions of D-Bus values: `try_clone`, and `try_from` to the types that are read.
pub record Conversions (V : Type 0) : Type 0 where
  pub try_clone : V → Option V
  pub to_str_map : V → Option (Map Str)
  pub to_dict : V → Option (List (Str × V))
  pub to_str : V → Option Str
  pub to_strs : V → Option (List Str)

abbrev pub Settings : Type 0 → Type 0
Settings V = Map (Map V)

-- What `vpn_data` fails on.
pub data SettingsError : Type 0 where
  no_vpn no_data not_a_dict : SettingsError
  not_a_string : Str → SettingsError

pub data Read (A : Type 0) : Type 0 where
  failed : SettingsError → Read A
  read : A → Read A

module _ {V : Type 0} (ops : Conversions V) where
  -- `if let Ok(s) = String::try_from(val) { out.insert(k, s) }`
  unfoldable pub insert_str : Str → Option Str → Map Str → Map Str
  insert_str k none out = out
  insert_str k (some s) out = insert k s out

  unfoldable pub flatten_entries : List (Str × V) → Map Str → Map Str
  flatten_entries [] out = out
  flatten_entries ((k, v) ∷ map) out = flatten_entries map (insert_str k (ops.to_str v) out)

  unfoldable pub flatten_dict : Option (List (Str × V)) → Option (Map Str)
  flatten_dict none = none
  flatten_dict (some map) = some (flatten_entries map empty)

  unfoldable pub flatten_str_map : V → Option (Map Str)
  flatten_str_map v = elim (ops.to_str_map v) [
    | some map ↦ some map
    | none ↦ flatten_dict (ops.to_dict v)
  ]

  -- `vpn.get(key).and_then(…)`, and the map that stands for none
  unfoldable pub flatten_clone : Option V → Option (Map Str)
  flatten_clone none = none
  flatten_clone (some v) = flatten_str_map v

  unfoldable pub sub_dict : Option V → Map Str
  sub_dict none = empty
  sub_dict (some v) = elim (flatten_clone (ops.try_clone v)) [ none ↦ empty | some inner ↦ inner ]

  unfoldable pub split_group : Option (Map V) → Map Str × Map Str
  split_group none = (empty, empty)
  split_group (some vpn) = (sub_dict (vpn (str "data")), sub_dict (vpn (str "secrets")))

  unfoldable pub split_vpn : Settings V → Map Str × Map Str
  split_vpn settings = split_group (settings (str "vpn"))

  -- One value of the dict form, and what becomes of the rest.
  unfoldable pub strict_str :
      Str → Option Str → (Map Str → Read (Map Str)) → Map Str → Read (Map Str)
  strict_str k none rest out = failed (not_a_string k)
  strict_str k (some s) rest out = rest (insert k s out)

  unfoldable pub strict_entries : List (Str × V) → Map Str → Read (Map Str)
  strict_entries [] out = read out
  strict_entries ((k, v) ∷ map) out = strict_str k (ops.to_str v) (strict_entries map) out

  unfoldable pub strict_dict : Option (List (Str × V)) → Read (Map Str)
  strict_dict none = failed not_a_dict
  strict_dict (some map) = strict_entries map empty

  unfoldable pub string_string_dict : V → Read (Map Str)
  string_string_dict value = elim (ops.to_str_map value) [
    | some map ↦ read map
    | none ↦ strict_dict (ops.to_dict value)
  ]

  unfoldable pub data_of : Option V → Read (Map Str)
  data_of none = failed no_data
  data_of (some raw) = string_string_dict raw

  unfoldable pub data_of_group : Option (Map V) → Read (Map Str)
  data_of_group none = failed no_vpn
  data_of_group (some vpn) = data_of (vpn (str "data"))

  unfoldable pub vpn_data : Settings V → Read (Map Str)
  vpn_data settings = data_of_group (settings (str "vpn"))

  -- `rest.split(':').next().unwrap_or("")`
  unfoldable pub first_field : Str → Str
  first_field rest = elim (split_once b':' rest) [ none ↦ rest | some (name, reserved) ↦ name ]

  -- The name in an entry `user:NAME` or `user:NAME:reserved`.
  unfoldable pub push_user : Option Str → List Str → List Str
  push_user none users = users
  push_user (some rest) users =
      let name = first_field rest in if is_empty name then users else name ∷ users

  unfoldable pub user_names : List Str → List Str
  user_names [] = []
  user_names (e ∷ entries) = push_user (strip_prefix (str "user:") e) (user_names entries)

  unfoldable pub users_of : Option (List Str) → List Str
  users_of none = []
  users_of (some entries) = user_names entries

  unfoldable pub permission_users : Settings V → List Str
  permission_users settings = elim (settings (str "connection")) [
    | none ↦ []
    | some conn ↦ elim (conn (str "permissions")) [
      | none ↦ []
      | some raw ↦ users_of (ops.to_strs raw)
    ]
  ]

  unfoldable pub filled_str : Option Str → Option Str
  filled_str none = none
  filled_str (some s) = if is_empty s then none else some s

  unfoldable pub connection_id : Settings V → Option Str
  connection_id settings = elim (settings (str "connection")) [
    | none ↦ none
    | some conn ↦ elim (conn (str "id")) [ none ↦ none | some raw ↦ filled_str (ops.to_str raw) ]
  ]

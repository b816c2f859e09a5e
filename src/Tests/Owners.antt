-- ===== src/Tests/Owners.antt =====
-- Whom a session is granted to, on a small host.
use nm_openvpn.Base.{
  Option, ℕ, List, Str, [], if◌then◌else◌, ltb, none, refl, some, str, str_eq, ◌∷◌, ◌≡◌,
}
use nm_openvpn.Base.Maps.{empty, insert}
use nm_openvpn.Text.{
  any_char, cut_once, from_str_radix, is_empty, parse_u32, read_digits, read_some, split_once,
  strip_prefix, to_digit,
}
use nm_openvpn.Import.Connection.{is_c_string}
use nm_openvpn.Secrets.Settings.{
  Conversions, Settings, first_field, permission_users, push_user, user_names, users_of,
}
use nm_openvpn.Owner.Users.{
  Host, add_uid, first_uid, found, grant_uid, least_of, least_uid, look_up, lowest_run_user_uid,
  or_else, settled, size_or_default, smaller, too_small, unknown, username_to_uid,
}

-- Only the user ada is known; the entry takes 5000 bytes.
abbrev ada : Host
ada = record {
  getpwnam = λ name size.
      if str_eq name (str "ada") then if ltb size 5000 then too_small else found 1000 else unknown;
  suggested = some 1024;
  run_user = some (str "0" ∷ str "1001" ∷ []);
}

abbrev names : Conversions (List Str)
names = record {
  try_clone = λ v. some v;
  to_str_map = λ v. none;
  to_dict = λ v. none;
  to_str = λ v. none;
  to_strs = λ v. some v;
}

abbrev permitted_users : Settings (List Str)
permitted_users =
    insert (str "connection")
      (insert (str "permissions") (str "user:grace:" ∷ str "user:ada:" ∷ []) empty) empty

abbrev only_ada : Str → Option ℕ
only_ada name = if str_eq name (str "ada") then some 1000 else none

ada_granted : grant_uid names ada permitted_users ≡ some 1000
unfolding grant_uid or_else first_uid permission_users users_of user_names push_user first_field
    strip_prefix split_once cut_once username_to_uid settled look_up size_or_default is_c_string
    any_char is_empty lowest_run_user_uid least_of least_uid add_uid smaller parse_u32
    from_str_radix read_digits read_some to_digit insert str str_eq
ada_granted = refl

lowest_granted : grant_uid names ada empty ≡ some 1001
unfolding grant_uid or_else first_uid permission_users users_of user_names push_user first_field
    strip_prefix split_once cut_once username_to_uid settled look_up size_or_default is_c_string
    any_char is_empty lowest_run_user_uid least_of least_uid add_uid smaller parse_u32
    from_str_radix read_digits read_some to_digit insert str str_eq
lowest_granted = refl

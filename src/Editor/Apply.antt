-- ===== src/Editor/Apply.antt =====
-- nm-openvpn3-editor/src/editor.rs: `iface_update_connection`, which applies the dialog to a
-- connection, and the visibility of its rows. The checks for null pointers are left out.
use nm_openvpn.Base.{
  Bool, List, Option, Str, [], if◌then◌else◌, none, not, one_of, some, str, str_eq, suc, zero, ◌++◌,
  ◌&&◌, ◌||◌, ◌∷◌,
}
use nm_openvpn.Base.Maps.{Map, insert}
use nm_openvpn.Text.{is_empty, to_string, ℤ, pos, negsuc}
use nm_openvpn.Import.Connection.{Connection, is_c_string, remove}
use nm_openvpn.Editor.Widgets.{EditorState, Numbers, selected_id}

pub record ContypeFlags : Type 0 where
  pub tls_like : Bool
  pub needs_user_cert : Bool
  pub needs_password : Bool
  pub is_static_key : Bool

unfoldable pub from_id : Str → ContypeFlags
from_id ct = record {
  tls_like = one_of (str "tls" ∷ str "password" ∷ str "password-tls" ∷ []) ct;
  needs_user_cert = one_of (str "tls" ∷ str "password-tls" ∷ []) ct;
  needs_password = one_of (str "password" ∷ str "password-tls" ∷ []) ct;
  is_static_key = str_eq ct (str "static-key");
}

-- What the dialog says when it does not save.
pub data Missing : Type 0 where
  gateway ca_certificate certificate_and_key user_name key_file : Missing

unfoldable pub validate_required_fields :
    (ct remote ca cert key username static_key : Str) → Option Missing
validate_required_fields ct remote ca cert key username static_key =
    if is_empty remote
    then some gateway
    else if one_of (str "tls" ∷ str "password-tls" ∷ []) ct && is_empty ca
    then some ca_certificate
    else if one_of (str "tls" ∷ str "password-tls" ∷ []) ct && (is_empty cert || is_empty key)
    then some certificate_and_key
    else if one_of (str "password" ∷ str "password-tls" ∷ []) ct && is_empty username
    then some user_name
    else if str_eq ct (str "static-key") && is_empty static_key
    then some key_file
    else none

-- The keys that the dialog owns.
abbrev pub widget_data_keys : List Str
widget_data_keys =
    str "connection-type"
    ∷ str "remote"
    ∷ str "port"
    ∷ str "ca"
    ∷ str "cert"
    ∷ str "key"
    ∷ str "static-key"
    ∷ str "static-key-direction"
    ∷ str "username"
    ∷ str "nm-openvpn3-profile"
    ∷ str "dev"
    ∷ str "dev-type"
    ∷ str "proto-tcp"
    ∷ str "tunnel-mtu"
    ∷ str "mssfix"
    ∷ str "fragment-size"
    ∷ str "ping"
    ∷ str "ping-restart"
    ∷ str "reneg-seconds"
    ∷ str "connect-timeout"
    ∷ str "allow-compression"
    ∷ str "comp-lzo"
    ∷ str "compress"
    ∷ str "cipher"
    ∷ str "data-ciphers"
    ∷ str "data-ciphers-fallback"
    ∷ str "tls-cipher"
    ∷ str "auth"
    ∷ str "keysize"
    ∷ str "tls-version-min"
    ∷ str "tls-version-min-or-highest"
    ∷ str "tls-version-max"
    ∷ str "verify-x509-name"
    ∷ str "remote-cert-tls"
    ∷ str "ns-cert-type"
    ∷ str "ta"
    ∷ str "ta-dir"
    ∷ str "tls-crypt"
    ∷ str "tls-crypt-v2"
    ∷ str "proxy-type"
    ∷ str "proxy-server"
    ∷ str "proxy-port"
    ∷ str "http-proxy-username"
    ∷ str "override-route-nopull"
    ∷ str "override-force-default-gateway"
    ∷ str "override-block-ipv6"
    ∷ str "override-dns-setup-disabled"
    ∷ str "override-dco"
    ∷ str "override-log-level"
    ∷ []

-- The closure `set`: an empty value, or one with a NUL, removes the key.
unfoldable pub set : Str → Str → Map Str → Map Str
set key value items =
    if is_empty value
    then remove key items
    else if is_c_string value
    then insert key value items
    else remove key items

-- The closure `set_secret`: an empty value leaves the secret alone.
unfoldable pub set_secret : Str → Str → Map Str → Map Str
set_secret key value secrets =
    if is_empty value
    then secrets
    else if is_c_string value
    then insert key value secrets
    else remove key secrets

-- `key` in the map after the loop that replays what the dialog does not own; `o` is what it was
-- opened with and `old` what the connection has.
unfoldable pub replayed : Str → Option Str → Option Str → Option Str
replayed key none old = old
replayed key (some v) old =
    if one_of widget_data_keys key
    then old
    else if is_c_string key && is_c_string v
    then some v
    else old

unfoldable pub replay : Map Str → Map Str → Map Str
replay initial items key = replayed key (initial key) (items key)

-- The closure `cond`.
unfoldable pub keep_if : Bool → Str → Str
keep_if b s = if b then s else []

unfoldable pub int_or_empty : ℤ → Str
int_or_empty (pos zero) = []
int_or_empty (pos (suc n)) = to_string (pos (suc n))
int_or_empty (negsuc n) = []

unfoldable pub yes_or_empty : Bool → Str
yes_or_empty b = if b then str "yes" else []

unfoldable pub bytes_or_yes : Str → Str
bytes_or_yes [] = str "yes"
bytes_or_yes (c ∷ s) = c ∷ s

-- The calls of `set`, one after the other.
unfoldable pub set_all : List (Str × Str) → Map Str → Map Str
set_all [] items = items
set_all ((k, v) ∷ kvs) items = set_all kvs (set k v items)

-- The rows of the credentials, and which of them are shown.
pub record Shown : Type 0 where
  pub ca : Bool
  pub cert : Bool
  pub key : Bool
  pub cert_pass : Bool
  pub username : Bool
  pub password : Bool
  pub static_key : Bool
  pub static_key_dir : Bool

unfoldable pub apply_contype_visibility : Str → Shown
apply_contype_visibility contype =
    let flags = from_id contype in
    record {
      ca = flags.tls_like;
      cert = flags.needs_user_cert;
      key = flags.needs_user_cert;
      cert_pass = flags.needs_user_cert;
      username = flags.needs_password;
      password = flags.needs_password;
      static_key = flags.is_static_key;
      static_key_dir = flags.is_static_key;
    }

pub data Applied : Type 0 where
  rejected : Missing → Applied
  applied : Connection → Applied

module _ (N : Numbers) where
  open N use {F, as_i64}

  unfoldable pub mssfix_value : Bool → F → Str
  mssfix_value enabled bytes =
      if not enabled then [] else bytes_or_yes (int_or_empty (as_i64 bytes))

  -- The first calls, up to the profile.
  unfoldable pub general_values : Str → EditorState F → List (Str × Str)
  general_values ct st =
      let flags = from_id ct in
      (str "connection-type", ct)
      ∷ (str "remote", st.remote)
      ∷ (str "port", int_or_empty (as_i64 st.port))
      ∷ (str "ca", keep_if flags.tls_like st.ca)
      ∷ (str "cert", keep_if flags.needs_user_cert st.cert)
      ∷ (str "key", keep_if flags.needs_user_cert st.key)
      ∷ (str "username", keep_if flags.needs_password st.username)
      ∷ (str "static-key", keep_if flags.is_static_key st.static_key)
      ∷ (str "static-key-direction", keep_if flags.is_static_key (selected_id st.static_key_dir))
      ∷ (str "nm-openvpn3-profile", st.profile_path)
      ∷ []

  -- Device + Connection
  unfoldable pub device_values : EditorState F → List (Str × Str)
  device_values st =
      (str "dev", st.dev)
      ∷ (str "dev-type", selected_id st.dev_type)
      ∷ (str "proto-tcp", yes_or_empty st.proto_tcp)
      ∷ (str "tunnel-mtu", int_or_empty (as_i64 st.tun_mtu))
      ∷ (str "mssfix", mssfix_value st.mssfix_enabled st.mssfix_bytes)
      ∷ (str "fragment-size", int_or_empty (as_i64 st.fragment))
      ∷ (str "ping", int_or_empty (as_i64 st.keepalive_ping))
      ∷ (str "ping-restart", int_or_empty (as_i64 st.keepalive_restart))
      ∷ (str "reneg-seconds", int_or_empty (as_i64 st.reneg_seconds))
      ∷ (str "connect-timeout", int_or_empty (as_i64 st.connect_timeout))
      ∷ []

  -- Compression
  unfoldable pub compression_values : EditorState F → List (Str × Str)
  compression_values st =
      (str "allow-compression", selected_id st.allow_compression)
      ∷ (str "comp-lzo", selected_id st.comp_lzo)
      ∷ (str "compress", selected_id st.compress)
      ∷ []

  -- Security
  unfoldable pub security_values : EditorState F → List (Str × Str)
  security_values st =
      (str "cipher", selected_id st.cipher)
      ∷ (str "data-ciphers", st.data_ciphers)
      ∷ (str "data-ciphers-fallback", selected_id st.data_ciphers_fallback)
      ∷ (str "tls-cipher", st.tls_cipher)
      ∷ (str "auth", selected_id st.auth)
      ∷ (str "keysize", int_or_empty (as_i64 st.keysize))
      ∷ []

  -- TLS
  unfoldable pub tls_values : EditorState F → List (Str × Str)
  tls_values st =
      (str "tls-version-min", selected_id st.tls_version_min)
      ∷ (str "tls-version-min-or-highest", yes_or_empty st.tls_version_min_or_highest)
      ∷ (str "tls-version-max", selected_id st.tls_version_max)
      ∷ (str "verify-x509-name", st.verify_x509_name)
      ∷ (str "remote-cert-tls", selected_id st.remote_cert_tls)
      ∷ (str "ns-cert-type", selected_id st.ns_cert_type)
      ∷ (str "ta", st.ta)
      ∷ (str "ta-dir", selected_id st.ta_dir)
      ∷ (str "tls-crypt", st.tls_crypt)
      ∷ (str "tls-crypt-v2", st.tls_crypt_v2)
      ∷ []

  -- Proxy
  unfoldable pub proxy_values : EditorState F → List (Str × Str)
  proxy_values st =
      (str "proxy-type", selected_id st.proxy_type)
      ∷ (str "proxy-server", st.proxy_server)
      ∷ (str "proxy-port", int_or_empty (as_i64 st.proxy_port))
      ∷ (str "http-proxy-username", st.proxy_user)
      ∷ []

  -- Misc
  unfoldable pub misc_values : EditorState F → List (Str × Str)
  misc_values st =
      (str "override-route-nopull", yes_or_empty st.or_route_nopull)
      ∷ (str "override-force-default-gateway", yes_or_empty st.or_force_default_gateway)
      ∷ (str "override-block-ipv6", yes_or_empty st.or_block_ipv6)
      ∷ (str "override-dns-setup-disabled", yes_or_empty st.or_dns_setup_disabled)
      ∷ (str "override-dco", yes_or_empty st.or_dco)
      ∷ (str "override-log-level", int_or_empty (as_i64 st.or_log_level))
      ∷ []

  -- The calls of `set`: their keys, with the values.
  unfoldable pub widget_values : Str → EditorState F → List (Str × Str)
  widget_values ct st =
      general_values ct st
      ++ (device_values st
          ++ (compression_values st
              ++ (security_values st ++ (tls_values st ++ (proxy_values st ++ misc_values st)))))

  -- The calls of `set_secret`.
  unfoldable pub set_secrets : Str → EditorState F → Map Str → Map Str
  set_secrets ct st secrets =
      let flags = from_id ct in
      set_secret (str "http-proxy-password") st.proxy_pass (
        set_secret (str "password") (keep_if flags.needs_password st.password)
          (set_secret (str "cert-pass") (keep_if flags.needs_user_cert st.cert_pass) secrets))

  unfoldable pub save : Str → EditorState F → Connection → Connection
  save ct st connection = record connection {
    items = set_all (widget_values ct st) (replay st.initial_data connection.items);
    secrets = set_secrets ct st connection.secrets;
  }

  unfoldable pub save_unless : Option Missing → Str → EditorState F → Connection → Applied
  save_unless (some missing) ct st connection = rejected missing
  save_unless none ct st connection = applied (save ct st connection)

  unfoldable pub update_connection : EditorState F → Connection → Applied
  update_connection st connection =
      let ct = selected_id st.contype in
      save_unless
        (validate_required_fields ct st.remote st.ca st.cert st.key st.username st.static_key) ct st
        connection

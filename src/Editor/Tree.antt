-- ===== src/Editor/Tree.antt =====
-- nm-openvpn3-editor/src/editor.rs: `build_widget_tree`, the dialog that is opened on the settings of
-- a connection.
use nm_openvpn.Base.{Bool, Option, Str, [], is_some_str, none, some, str, ℕ, ◌||◌}
use nm_openvpn.Base.Maps.{Map}
use nm_openvpn.Editor.Widgets.{
  EditorState, Numbers, allow_compressions, auth_algs, ciphers, combo_row, comp_lzos, compresses,
  contypes, dev_types, key_dir, ns_cert_types, proxy_types, remote_cert_tlss, tls_versions,
  unwrap_or,
}

-- `TIMER_SECS_MAX`
abbrev pub timer_secs_max : ℕ
timer_secs_max = 2147483647

unfoldable pub text : Map Str → Str → Str
text initial k = unwrap_or [] (initial k)

unfoldable pub is_on : Map Str → Str → Bool
is_on initial k = is_some_str (initial k) (str "yes")

module _ (N : Numbers) where
  open N use {F, as_i64, exceeds, larger, of_nat, parse_f64, set_value}

  unfoldable pub or_number : F → Option F → F
  or_number default none = default
  or_number default (some v) = v

  unfoldable pub parse_int_default : Option Str → F → F
  parse_int_default none default = default
  parse_int_default (some v) default = or_number default (parse_f64 v)

  unfoldable pub spin_row : ℕ → F → F
  spin_row top v = set_value (of_nat 0) (of_nat top) v

  unfoldable pub spin : Map Str → Str → ℕ → F
  spin initial k top = spin_row top (parse_int_default (initial k) (of_nat 0))

  unfoldable pub mssfix_bytes_initial : Str → F
  mssfix_bytes_initial raw = larger (or_number (of_nat 0) (parse_f64 raw)) (of_nat 0)

  unfoldable pub mssfix_on : Str → Bool
  mssfix_on raw =
      is_some_str (some raw) (str "yes") || exceeds (mssfix_bytes_initial raw) (of_nat 0)

  unfoldable pub build_widget_tree : Map Str → EditorState F
  build_widget_tree initial = record {
    contype = combo_row contypes (some (unwrap_or (str "tls") (initial (str "connection-type"))));
    remote = text initial (str "remote");
    port = spin initial (str "port") 65535;
    ca = text initial (str "ca");
    cert = text initial (str "cert");
    key = text initial (str "key");
    cert_pass = [];
    username = text initial (str "username");
    password = [];
    profile_path = text initial (str "nm-openvpn3-profile");
    static_key = text initial (str "static-key");
    static_key_dir = combo_row key_dir (initial (str "static-key-direction"));
    dev = text initial (str "dev");
    dev_type = combo_row dev_types (initial (str "dev-type"));
    proto_tcp = is_on initial (str "proto-tcp");
    tun_mtu = spin initial (str "tunnel-mtu") 65535;
    mssfix_enabled = mssfix_on (text initial (str "mssfix"));
    mssfix_bytes = spin_row 65535 (mssfix_bytes_initial (text initial (str "mssfix")));
    fragment = spin initial (str "fragment-size") 65535;
    keepalive_ping = spin initial (str "ping") timer_secs_max;
    keepalive_restart = spin initial (str "ping-restart") timer_secs_max;
    reneg_seconds = spin initial (str "reneg-seconds") timer_secs_max;
    connect_timeout = spin initial (str "connect-timeout") timer_secs_max;
    allow_compression = combo_row allow_compressions (initial (str "allow-compression"));
    comp_lzo = combo_row comp_lzos (initial (str "comp-lzo"));
    compress = combo_row compresses (initial (str "compress"));
    cipher = combo_row ciphers (initial (str "cipher"));
    data_ciphers = text initial (str "data-ciphers");
    data_ciphers_fallback = combo_row ciphers (initial (str "data-ciphers-fallback"));
    tls_cipher = text initial (str "tls-cipher");
    auth = combo_row auth_algs (initial (str "auth"));
    keysize = spin initial (str "keysize") 65535;
    tls_version_min = combo_row tls_versions (initial (str "tls-version-min"));
    tls_version_min_or_highest = is_on initial (str "tls-version-min-or-highest");
    tls_version_max = combo_row tls_versions (initial (str "tls-version-max"));
    verify_x509_name = text initial (str "verify-x509-name");
    remote_cert_tls = combo_row remote_cert_tlss (initial (str "remote-cert-tls"));
    ns_cert_type = combo_row ns_cert_types (initial (str "ns-cert-type"));
    ta = text initial (str "ta");
    ta_dir = combo_row key_dir (initial (str "ta-dir"));
    tls_crypt = text initial (str "tls-crypt");
    tls_crypt_v2 = text initial (str "tls-crypt-v2");
    proxy_type = combo_row proxy_types (initial (str "proxy-type"));
    proxy_server = text initial (str "proxy-server");
    proxy_port = spin initial (str "proxy-port") 65535;
    proxy_user = text initial (str "http-proxy-username");
    proxy_pass = [];
    or_route_nopull = is_on initial (str "override-route-nopull");
    or_force_default_gateway = is_on initial (str "override-force-default-gateway");
    or_block_ipv6 = is_on initial (str "override-block-ipv6");
    or_dns_setup_disabled = is_on initial (str "override-dns-setup-disabled");
    or_dco = is_on initial (str "override-dco");
    or_log_level = spin initial (str "override-log-level") 6;
    initial_data = initial;
  }

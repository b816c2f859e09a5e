-- ===== src/Editor/Widgets.antt =====
-- nm-openvpn3-editor/src/editor.rs: the rows of the dialog, and the vocabularies of its drop-down
-- lists. A row is what it holds; titles, labels, tooltips and layout are left out.
use nm_openvpn.Base.{
  Bool, List, Option, Str, [], if◌then◌else◌, is_some_str, none, not, some, str, suc, zero, ℕ, ◌++◌,
  ◌∷◌,
}
use nm_openvpn.Text.{is_empty, ℤ}

-- `f64` and what a spin row of GTK does with it: `set_value low high v` is the value of a row with
-- that range after it was set to `v`; `as_i64` is the cast.
pub record Numbers : Type 1 where
  pub F : Type 0
  pub of_nat : ℕ → F
  pub parse_f64 : Str → Option F
  pub larger : F → F → F
  pub exceeds : F → F → Bool
  pub set_value : F → F → F → F
  pub as_i64 : F → ℤ

-- `ids.get(idx)`
unfoldable pub nth : List Str → ℕ → Option Str
nth [] i = none
nth (x ∷ xs) zero = some x
nth (x ∷ xs) (suc i) = nth xs i

unfoldable pub unwrap_or : Str → Option Str → Str
unwrap_or s none = s
unwrap_or s (some t) = t

unfoldable pub count_ids : List Str → ℕ
count_ids [] = 0
count_ids (x ∷ xs) = suc (count_ids xs)

pub record ComboBinding : Type 0 where
  pub selected : ℕ
  pub ids : List Str

unfoldable pub selected_id : ComboBinding → Str
selected_id b = unwrap_or [] (nth b.ids b.selected)

-- The loop over the choices: the index of the one that is wanted, where one matched.
unfoldable pub matched : Option Str → ℕ → List Str → Option ℕ → Option ℕ
matched initial i [] found = found
matched initial i (id ∷ rest) found =
    matched initial (suc i) rest (if is_some_str initial id then some i else found)

-- A value outside the vocabulary becomes one more choice.
unfoldable pub with_choice : List Str → Option Str → Option ℕ → ComboBinding
with_choice choices initial (some i) = record { selected = i; ids = choices }
with_choice choices none none = record { selected = 0; ids = choices }
with_choice choices (some v) none =
    if not (is_empty v)
    then record { selected = count_ids choices; ids = choices ++ v ∷ [] }
    else record { selected = 0; ids = choices }

unfoldable pub combo_row : List Str → Option Str → ComboBinding
combo_row choices initial = with_choice choices initial (matched initial 0 choices none)

abbrev pub contypes : List Str
contypes = str "tls" ∷ str "password" ∷ str "password-tls" ∷ str "static-key" ∷ []

abbrev pub allow_compressions : List Str
allow_compressions = [] ∷ str "no" ∷ str "asym" ∷ str "yes" ∷ []

abbrev pub remote_cert_tlss : List Str
remote_cert_tlss = [] ∷ str "client" ∷ str "server" ∷ []

abbrev pub ns_cert_types : List Str
ns_cert_types = [] ∷ str "client" ∷ str "server" ∷ []

abbrev pub tls_versions : List Str
tls_versions = [] ∷ str "1.0" ∷ str "1.1" ∷ str "1.2" ∷ str "1.3" ∷ []

abbrev pub proxy_types : List Str
proxy_types = [] ∷ str "http" ∷ str "socks" ∷ []

abbrev pub comp_lzos : List Str
comp_lzos = [] ∷ str "yes" ∷ str "no" ∷ str "adaptive" ∷ []

abbrev pub dev_types : List Str
dev_types = [] ∷ str "tun" ∷ str "tap" ∷ []

abbrev pub compresses : List Str
compresses = [] ∷ str "lzo" ∷ str "lz4" ∷ str "lz4-v2" ∷ []

abbrev pub ciphers : List Str
ciphers =
    []
    ∷ str "AES-256-GCM"
    ∷ str "AES-192-GCM"
    ∷ str "AES-128-GCM"
    ∷ str "CHACHA20-POLY1305"
    ∷ str "AES-256-CBC"
    ∷ str "AES-192-CBC"
    ∷ str "AES-128-CBC"
    ∷ str "BF-CBC"
    ∷ []

abbrev pub auth_algs : List Str
auth_algs =
    []
    ∷ str "SHA1"
    ∷ str "SHA224"
    ∷ str "SHA256"
    ∷ str "SHA384"
    ∷ str "SHA512"
    ∷ str "RIPEMD160"
    ∷ str "MD5"
    ∷ []

abbrev pub key_dir : List Str
key_dir = [] ∷ str "0" ∷ str "1" ∷ []

-- The rows, over the numbers of the spin rows, and the settings that the dialog was opened with.
pub record EditorState (F : Type 0) : Type 0 where
  pub contype : ComboBinding
  pub remote : Str
  pub port : F
  pub ca : Str
  pub cert : Str
  pub key : Str
  pub cert_pass : Str
  pub username : Str
  pub password : Str
  pub profile_path : Str
  pub static_key : Str
  pub static_key_dir : ComboBinding
  pub dev : Str
  pub dev_type : ComboBinding
  pub proto_tcp : Bool
  pub tun_mtu : F
  pub mssfix_enabled : Bool
  pub mssfix_bytes : F
  pub fragment : F
  pub keepalive_ping : F
  pub keepalive_restart : F
  pub reneg_seconds : F
  pub connect_timeout : F
  pub allow_compression : ComboBinding
  pub comp_lzo : ComboBinding
  pub compress : ComboBinding
  pub cipher : ComboBinding
  pub data_ciphers : Str
  pub data_ciphers_fallback : ComboBinding
  pub tls_cipher : Str
  pub auth : ComboBinding
  pub keysize : F
  pub tls_version_min : ComboBinding
  pub tls_version_min_or_highest : Bool
  pub tls_version_max : ComboBinding
  pub verify_x509_name : Str
  pub remote_cert_tls : ComboBinding
  pub ns_cert_type : ComboBinding
  pub ta : Str
  pub ta_dir : ComboBinding
  pub tls_crypt : Str
  pub tls_crypt_v2 : Str
  pub proxy_type : ComboBinding
  pub proxy_server : Str
  pub proxy_port : F
  pub proxy_user : Str
  pub proxy_pass : Str
  pub or_route_nopull : Bool
  pub or_force_default_gateway : Bool
  pub or_block_ipv6 : Bool
  pub or_dns_setup_disabled : Bool
  pub or_dco : Bool
  pub or_log_level : F
  pub initial_data : Str → Option Str

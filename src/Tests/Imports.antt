-- ===== src/Tests/Imports.antt =====
-- Applications of the results on imports.
use nm_openvpn.Text.{is_ascii_alphanumeric, any_char, is_empty, parse_u32}
use nm_openvpn.Profile.Blocks.{
  is_tls_like, is_password_like, needs_user_cert, is_remote_separator, chosen_dev,
}
use nm_openvpn.Ovpn.Validate.{check_option, validate}
use nm_openvpn.Export.Blocks.{
  and_then, cert_block, cert_lines, flatten, given, only_if, pairs_str, pkcs12_collapse, push_flag,
  push_opt, push_pairs, remote_block, unwrap_or_default, when, yes_flag,
}
use nm_openvpn.Base.{
  ◌++◌, Str, true, [], if◌then◌else◌, is_some_str, none, one_of, refl, some, str, str_eq, ◌∙◌, ◌∷◌,
  ◌≡◌,
}
use nm_openvpn.Base.Lists.{All}
use nm_openvpn.Ovpn.Defs.{OvpnConfig, blob, first, ok, option, second}
use nm_openvpn.Ovpn.Parse.{parse}
use nm_openvpn.Ovpn.Emit.{emit}
use nm_openvpn.Profile.Values.{Data, arg_is_set, get, some_in}
use nm_openvpn.Export.Build.{
  compress_line, compression_block, crl_lines, device_block, from_nm_data, ifconfig_line,
  mssfix_line, mtu_block, or_default, proxy_block, proxy_lines, route_block, tail_block, tls_block,
  tls_pairs,
}
use nm_openvpn.Import.Items.{IsItem, connection_of-IsItem}
use nm_openvpn.Import.BlobName.{
  as_bytes, blob_filename, fnv, hex, hex_digit, id_disc, id_safe, utf8,
}
use nm_openvpn.Import.Connection.{
  OvpnPath, System, add_blob, add_blobs, add_directive, connection_of, is_c_string, pin, point_at,
  stem_or_default, write_blobs,
}
use nm_openvpn.Base.Maps.{insert}
use nm_openvpn.Export.RoundTrip.{parse-emit-from_nm_data}
use nm_openvpn.Import.Build.{as_nm_data, later}
use nm_openvpn.Import.Contype.{
  has_secret, has_cert, has_key, has_password, triage, as_nm_data-contype,
}
use nm_openvpn.Import.Single.{last_of, last_arg}
use nm_openvpn.Import.Direction.{has_tls_auth, as_nm_data-ta_dir}
use nm_openvpn.Import.Export.{kept, as_nm_data-parse}

-- A static key for the control channel in a blob, with its direction beside it.
abbrev config : OvpnConfig
config = record {
  directives =
      option (str "remote") (str "vpn.example.com" ∷ [])
      ∷ option (str "cipher") (str "AES-128-CBC" ∷ [])
      ∷ option (str "cipher") (str "AES-256-GCM" ∷ [])
      ∷ option (str "pkcs12") (str "me.p12" ∷ [])
      ∷ option (str "auth-user-pass") []
      ∷ blob (str "tls-auth") (str "0123\n")
      ∷ option (str "key-direction") (str "1" ∷ [])
      ∷ [];
}

as_nm_data-contype_example :
    as_nm_data config (str "connection-type")
    ≡ some (
        triage
          (has_secret config.directives)
          (has_cert config.directives)
          (has_key config.directives)
          (has_password config.directives))
as_nm_data-contype_example = as_nm_data-contype config

as_nm_data-ta_dir_example :
    as_nm_data config (str "ta-dir")
    ≡ later (last_of second (str "tls-auth") config.directives) (
        if has_tls_auth config.directives
        then last_arg (str "key-direction") config.directives
        else none)
as_nm_data-ta_dir_example = as_nm_data-ta_dir config

abbrev settings : Data
settings key =
    if str_eq key (str "connection-type")
    then some (str "password")
    else if str_eq key (str "cipher")
    then some (str "AES-256-GCM")
    else none

validated : validate (from_nm_data settings).directives ≡ ok tt
unfolding push_opt push_flag flatten when given only_if and_then yes_flag push_pairs remote_block
    tls_pairs crl_lines pkcs12_collapse unwrap_or_default cert_lines cert_block pairs_str
    compress_line compression_block mssfix_line ifconfig_line mtu_block route_block tls_block
    device_block or_default proxy_lines proxy_block tail_block from_nm_data check_option validate
    is_tls_like is_password_like needs_user_cert is_remote_separator chosen_dev get arg_is_set
    some_in is_some_str one_of str str_eq first second parse_u32 is_empty
validated = refl

settings-parse : parse (emit (from_nm_data settings)) ≡ ok (from_nm_data settings)
settings-parse = parse-emit-from_nm_data settings ∙ rw validated refl

as_nm_data-parse_example :
    All (λ nk. as_nm_data (from_nm_data settings) nk.1 ≡ get settings nk.1) kept
as_nm_data-parse_example = as_nm_data-parse settings (from_nm_data settings) settings-parse

-- A system where everything that is written reaches the disk.
abbrev writing_system : System
writing_system = record {
  read_beside = λ name. none;
  secure_cert_dir = some (str "/certs");
  write_blob = λ path bytes. true;
  decode = λ text. none;
  is_alphanumeric = is_ascii_alphanumeric;
}

abbrev office : OvpnPath
office = record { file_stem = some (str "office"); shown = none }

abbrev key_path : Str
key_path =
    str "/certs" ++ b'/' ∷ blob_filename is_ascii_alphanumeric (str "office") (str "tls-auth")

key_written : (connection_of writing_system office config).items (str "tls-auth") ≡ some key_path
unfolding connection_of pin write_blobs add_blobs add_directive add_blob point_at stem_or_default
    is_c_string any_char blob_filename id_safe id_disc hex hex_digit fnv as_bytes utf8 insert str
    str_eq is_ascii_alphanumeric
key_written = refl

connection_of-IsItem_example : IsItem writing_system office config (str "tls-auth") key_path
connection_of-IsItem_example =
    connection_of-IsItem writing_system office config (str "tls-auth") key_path key_written

-- ===== src/Tests/Files.antt =====
-- Applications of the results on option files, profiles and the wire.
use nm_openvpn.Base.{List, Str, [], if◌then◌else◌, none, one_of, refl, some, str, str_eq, ◌∷◌, ◌≡◌}
use nm_openvpn.Base.Lists.{All}
use nm_openvpn.Text.{any_char, ends_with, lines, starts_with, strip_cr, strip_prefix, trim}
use nm_openvpn.Profile.Values.{arg_is_set, Data, get}
use nm_openvpn.Profile.Clean.{IsSafeLine}
use nm_openvpn.Ovpn.RoundTrip.Writable.{IsWritable, writable_blob, writable_option}
use nm_openvpn.Ovpn.Defs.{◌>>◌, OvpnConfig, inline_blob_names, option, blob, ok}
use nm_openvpn.Profile.Build.{build_profile_string}
use nm_openvpn.Profile.Safe.{build_profile_string-IsSafeLine}
use nm_openvpn.Export.Build.{from_nm_data}
use nm_openvpn.Export.RoundTrip.{parse-emit-from_nm_data}
use nm_openvpn.Ovpn.Parse.{close_tag, is_tag, parse}
use nm_openvpn.Ovpn.RoundTrip.{parse-emit}
use nm_openvpn.Text.Laws.{unlines}
use nm_openvpn.Ovpn.Emit.{emit}
use nm_openvpn.Ovpn.Validate.{validate}

abbrev words : List Str
words = str "two words" ∷ str "it's \"so\"\n" ∷ [] ∷ str "c:\\x" ∷ []

abbrev ca_body : Str
ca_body = unlines (str "-----BEGIN" ∷ str "a # b" ∷ [])

abbrev config : OvpnConfig
config = record {
  directives =
      option (str "remote") (str "vpn.example.com" ∷ str "1194" ∷ [])
      ∷ blob (str "ca") ca_body
      ∷ option (str "setenv") (str "NAME" ∷ str "two words" ∷ [])
      ∷ [];
}

config_IsWritable : All IsWritable config.directives
unfolding str strip_prefix is_tag starts_with ends_with inline_blob_names one_of any_char strip_cr
    trim close_tag str_eq
config_IsWritable = (
  writable_option refl refl,
  (
    writable_blob (str "-----BEGIN") (str "a # b" ∷ []) refl
        (
          record { one_line = refl; whole = refl; not_close = refl },
          (record { one_line = refl; whole = refl; not_close = refl }, tt),
        )
        refl,
    (writable_option refl refl, tt),
  ),
)

parse-emit_example : parse (emit config) ≡ (validate config.directives >> ok config)
parse-emit_example = parse-emit config config_IsWritable

abbrev settings : Data
settings k =
    if str_eq k (str "remote")
    then some (str "vpn.example.com:1194")
    else if str_eq k (str "nm-openvpn3-extra-routes")
    then some (str "route 10.0.0.0 255.0.0.0\nup /bin/sh")
    else none

settings_remote : get settings (str "remote") ≡ some (str "vpn.example.com:1194")
unfolding get str_eq str arg_is_set
settings_remote = refl

build_profile_string-IsSafeLine_example :
    (out : Str) × (build_profile_string settings settings ≡ some out) × All IsSafeLine (lines out)
build_profile_string-IsSafeLine_example =
    build_profile_string-IsSafeLine settings settings (str "vpn.example.com:1194") settings_remote

parse-emit-from_nm_data_example :
    parse (emit (from_nm_data settings))
    ≡ (validate (from_nm_data settings).directives >> ok (from_nm_data settings))
parse-emit-from_nm_data_example = parse-emit-from_nm_data settings

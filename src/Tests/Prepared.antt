-- ===== src/Tests/Prepared.antt =====
-- A Connect with an imported file, and one with settings of its own.
use nm_openvpn.Base.{
  Str, [], arith, false, none, one_of, refl, some, str, str_eq, true, ◌∷◌, ◌≡◌, ◌≤◌,
}
use nm_openvpn.Base.Maps.{Map, empty, insert}
use nm_openvpn.Text.{
  any_char, ends_with, from_str_radix, is_ascii_alphanumeric, is_ascii_whitespace, is_empty,
  is_whitespace, last_line, lines, lines_from, parse_u32, read_digits, read_some, starts_with,
  strip_cr, strip_prefix, strip_suffix, to_digit, trim, trim_end, trim_start,
}
use nm_openvpn.Ovpn.Defs.{OvpnConfig, inline_blob_names, ok, option}
use nm_openvpn.Ovpn.Validate.{check_option, validate}
use nm_openvpn.Quote.{mapped, next, run, tokenize, word_char}
use nm_openvpn.Ovpn.Parse.{
  add, close_tag, drop_ends, drop_last, is_tag, parse, read_inside, read_line, read_lines,
  read_tokens, read_top, read_words, start, without_prefix, finish,
}
use nm_openvpn.Secrets.Settings.{
  Conversions, Settings, data_of, data_of_group, read, string_string_dict, vpn_data,
}
use nm_openvpn.Import.BlobName.{as_bytes, utf8}
use nm_openvpn.Import.Connection.{
  Connection, OvpnPath, System, connection_of, is_c_string, ovpn_text_to_connection,
}
use nm_openvpn.Files.Defs.{Disk, count, file}
use nm_openvpn.Files.Read.{Moment, max_profile_bytes}
use nm_openvpn.Files.Again.{IsQuiet}
use nm_openvpn.Prepare.{config_name, prepare, ready}
use nm_openvpn.Prepare.Source.{IsPrepared, prepare-IsPrepared}
use nm_openvpn.Prepare.Imported.{prepare-ovpn_text_to_connection}

abbrev contents : Str
contents = str "client\nremote a\n"

abbrev contents_config : OvpnConfig
contents_config = record {
  directives = option (str "client") [] ∷ option (str "remote") (str "a" ∷ []) ∷ [];
}

abbrev bare_system : System
bare_system = record {
  read_beside = λ name. none;
  secure_cert_dir = none;
  write_blob = λ path bytes. false;
  decode = λ text. none;
  is_alphanumeric = is_ascii_alphanumeric;
}

abbrev home_path : OvpnPath
home_path = record { file_stem = some (str "office"); shown = some (str "/o.ovpn") }

abbrev home_disk : Disk
home_disk = insert (str "/o.ovpn") (file 420 (as_bytes contents)) empty

-- A read of ASCII text that nothing disturbs.
abbrev undisturbed : Moment
undisturbed = record { fails = false; later = λ bytes. bytes; decode = λ bytes. some bytes }

-- The values are dictionaries of strings.
abbrev dictionaries : Conversions (Map Str)
dictionaries = record {
  try_clone = some;
  to_str_map = some;
  to_dict = λ v. none;
  to_str = λ v. none;
  to_strs = λ v. none;
}

abbrev imported : Connection
imported = connection_of bare_system home_path contents_config

abbrev sent : Map Str → Settings (Map Str)
sent items = insert (str "vpn") (insert (str "data") items empty) empty

contents-parse : parse contents ≡ ok contents_config
unfolding parse read_lines lines without_prefix strip_prefix str read_line start read_top trim_start
    read_tokens tokenize read_words is_tag starts_with add finish one_of str_eq inline_blob_names
    close_tag drop_ends drop_last read_inside check_option validate nm_openvpn.Quote.finish mapped
    next run word_char ends_with is_ascii_whitespace is_empty is_whitespace strip_suffix trim
    trim_end last_line lines_from strip_cr from_str_radix parse_u32 read_digits read_some to_digit
contents-parse = refl

contents_imported : ovpn_text_to_connection bare_system home_path contents ≡ ok imported
unfolding ovpn_text_to_connection
contents_imported = rw contents-parse refl

home-is_c_string : is_c_string (str "/o.ovpn") ≡ true
unfolding is_c_string any_char str
home-is_c_string = refl

sent-vpn_data : (items : Map Str) → vpn_data dictionaries (sent items) ≡ read items
unfolding vpn_data data_of_group data_of string_string_dict insert str str_eq
sent-vpn_data items = refl

home_holds : home_disk (str "/o.ovpn") ≡ some (file 420 (as_bytes contents))
unfolding insert str str_eq
home_holds = refl

contents-IsQuiet : IsQuiet undisturbed contents
unfolding as_bytes utf8 str
contents-IsQuiet = record { succeeds = refl; unchanged = refl; decoded = refl }

contents_short : count (as_bytes contents) ≤ max_profile_bytes
unfolding as_bytes utf8 str count max_profile_bytes
contents_short = omega arith

prepare-ovpn_text_to_connection_example :
    prepare dictionaries undisturbed home_disk (sent imported.items)
    ≡ ready (config_name dictionaries (sent imported.items) imported.items) contents
prepare-ovpn_text_to_connection_example =
    prepare-ovpn_text_to_connection dictionaries bare_system home_path contents (str "/o.ovpn") 420
      imported undisturbed home_disk (sent imported.items) contents_imported refl home-is_c_string
      (sent-vpn_data imported.items) home_holds contents-IsQuiet contents_short

-- Settings with a remote and no file.
abbrev own_items : Map Str
own_items = insert (str "remote") (str "vpn.example.org") empty

prepare-IsPrepared_example :
    IsPrepared dictionaries undisturbed home_disk
      (sent own_items)
      (prepare dictionaries undisturbed home_disk (sent own_items))
prepare-IsPrepared_example =
    prepare-IsPrepared dictionaries (λ v. refl) undisturbed home_disk (sent own_items)

-- ===== src/Export/Exported.antt =====
-- What is read back from the text of an export.
use nm_openvpn.Base.{Option, Str, [], none, refl, some, str, ◌++◌, ◌≡◌, ◌∷◌}
use nm_openvpn.Base.Lists.{All}
use nm_openvpn.Text.{any_char, strip_cr, strip_prefix}
use nm_openvpn.Text.Laws.{unlines}
use nm_openvpn.Ovpn.Defs.{ok, OvpnConfig, Result, ◌>>◌}
use nm_openvpn.Ovpn.Emit.{emit}
use nm_openvpn.Ovpn.Parse.{parse, start, without_prefix}
use nm_openvpn.Ovpn.Validate.{validate}
use nm_openvpn.Ovpn.RoundTrip.{read_texts}
use nm_openvpn.Ovpn.RoundTrip.Comments.{IsComment, comment, read_comments}
use nm_openvpn.Ovpn.RoundTrip.Writable.{emit_from_lem, texts}
use nm_openvpn.Profile.Values.{Data}
use nm_openvpn.Export.Build.{from_nm_data}
use nm_openvpn.Export.Writable.{from_nm_data-IsWritable}
use nm_openvpn.Export.Pinned.{connection_to_ovpn_text, pinned_text, text_or_settings, warning}

warning-IsComment : All IsComment warning
unfolding str any_char strip_cr
warning-IsComment =
    (comment refl refl, (comment refl refl, (comment refl refl, (comment refl refl, tt))))

no_bom :
    (body : Str) → without_prefix (0xfeff ∷ []) (unlines warning ++ body) ≡ unlines warning ++ body
unfolding without_prefix strip_prefix str
no_bom body = refl

parse-warning :
    (data' : Data)
    → parse (unlines warning ++ emit (from_nm_data data'))
      ≡ (validate (from_nm_data data').directives >> ok (from_nm_data data'))
unfolding parse emit start
parse-warning data' =
    let ds = (from_nm_data data').directives in
    let (n, e) = read_comments warning (texts ds) 1 [] warning-IsComment in
    rw
      (
        emit_from_lem ds [],
        no_bom (texts ds),
        e,
        read_texts ds [] n (from_nm_data-IsWritable data'),
      )
      refl

-- What the file that is exported means: the pinned file itself, or else the settings.
abbrev pub exported : Option Str → Data → Result OvpnConfig
exported none data' = validate (from_nm_data data').directives >> ok (from_nm_data data')
exported (some text) data' = parse text

parse-text_or_settings :
    (o : Option Str) (data' : Data) → parse (text_or_settings o data') ≡ exported o data'
unfolding text_or_settings
parse-text_or_settings none data' = parse-warning data'
parse-text_or_settings (some text) data' = refl

-- The text of an export is parsed as the file that the connection is pinned to, where that can be
-- read; otherwise, past the warning, into the very directives that the settings are exported as,
-- or into the error that `validate` has for them.
pub parse-connection_to_ovpn_text :
    (read : Str → Option Str) (data' : Data)
    → parse (connection_to_ovpn_text read data') ≡ exported (pinned_text read data') data'
unfolding connection_to_ovpn_text
parse-connection_to_ovpn_text read data' = parse-text_or_settings (pinned_text read data') data'

-- ===== src/Export/RoundTrip.antt =====
-- An exported connection is read back.
use nm_openvpn.Base.{◌≡◌}
use nm_openvpn.Ovpn.Defs.{ok, ◌>>◌}
use nm_openvpn.Ovpn.Parse.{parse}
use nm_openvpn.Ovpn.Emit.{emit}
use nm_openvpn.Ovpn.Validate.{validate}
use nm_openvpn.Profile.Values.{Data}
use nm_openvpn.Ovpn.RoundTrip.{parse-emit}
use nm_openvpn.Export.Build.{from_nm_data}
use nm_openvpn.Export.Writable.{from_nm_data-IsWritable}

-- Whatever the settings hold, the text of an export is split into the very directives that were
-- exported: `parse` gives them back, or the error that `validate` has for them.
pub parse-emit-from_nm_data :
    (data' : Data)
    → parse (emit (from_nm_data data'))
      ≡ (validate (from_nm_data data').directives >> ok (from_nm_data data'))
parse-emit-from_nm_data data' = parse-emit (from_nm_data data') (from_nm_data-IsWritable data')

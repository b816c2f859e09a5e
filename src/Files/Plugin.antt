-- ===== src/Files/Plugin.antt =====
-- nm-openvpn3-properties/src/plugin.rs: import and export of a file, and the name that is suggested
-- for it. The checks for null pointers are left out.
use nm_openvpn.Base.{Option, Str, none, not, some, str, ◌++◌, if◌then◌else◌}
use nm_openvpn.Text.{is_empty}
use nm_openvpn.Ovpn.Defs.{ConfigError, Result, err, ok}
use nm_openvpn.Profile.Values.{Data}
use nm_openvpn.Export.Pinned.{connection_to_ovpn_text}
use nm_openvpn.Import.Connection.{
  Connection, OvpnPath, System, is_c_string, ovpn_text_to_connection,
}
use nm_openvpn.Files.Defs.{Disk}
use nm_openvpn.Files.Read.{
  Moment, ReadError, Reading, error, max_profile_bytes, read_capped, read_profile_securely, text,
}
use nm_openvpn.Files.Write.{After, FilePath, Weather, export_connection_to_path}

pub data FileImport : Type 0 where
  not_utf8 : FileImport
  unreadable : ReadError → FileImport
  not_openvpn : ConfigError → FileImport
  imported : Connection → FileImport

unfoldable pub import_result : Result Connection → FileImport
import_result (ok c) = imported c
import_result (err e) = not_openvpn e

unfoldable pub import_reading : System → OvpnPath → Reading → FileImport
import_reading sys path (text s) = import_result (ovpn_text_to_connection sys path s)
import_reading sys path (error e) = unreadable e

unfoldable pub import_shown : System → Moment → OvpnPath → Option Str → Disk → FileImport
import_shown sys m path none disk = not_utf8
import_shown sys m path (some s) disk =
    import_reading sys path (read_capped m max_profile_bytes (disk s))

unfoldable pub import_from_file : System → Moment → OvpnPath → Disk → FileImport
import_from_file sys m path disk = import_shown sys m path path.shown disk

-- The items are those that `connection_to_nm_data` finds.
unfoldable pub export_to_file : Moment → Weather → Data → FilePath → Disk → After
export_to_file m w items p disk =
    export_connection_to_path w
      (connection_to_ovpn_text (λ path. read_profile_securely m (disk path)) items) p disk

unfoldable pub get_suggested_filename : Str → Option Str
get_suggested_filename id =
    let suggested = id ++ str " (openvpn).conf" in
    if not (is_empty id) then (if is_c_string suggested then some suggested else none) else none

-- ===== src/Export/Pinned.antt =====
-- nm-openvpn3-properties/src/bridge.rs: `connection_to_ovpn_text`, the text that an export writes.
-- `read` is the hardened `read_profile_securely`, by path; `data'` are the items of the connection
-- that `connection_to_nm_data` collects, none where it has no VPN setting.
use nm_openvpn.Base.{List, Option, Str, [], if◌then◌else◌, none, some, str, ◌++◌, ◌∷◌}
use nm_openvpn.Text.{is_empty}
use nm_openvpn.Text.Laws.{unlines}
use nm_openvpn.Ovpn.Emit.{emit}
use nm_openvpn.Profile.Values.{Data}
use nm_openvpn.Export.Build.{from_nm_data}

-- The comment lines above an export that is put together from the settings.
abbrev pub warning : List Str
warning =
    str "# Exported by NetworkManager-openvpn3 from vpn.data — modern"
    ∷ str "# openvpn3 options stored only in the original .ovpn (tls-crypt-v2,"
    ∷ str "# peer-fingerprint, inline blobs) cannot be reconstructed and are"
    ∷ str "# NOT included in this file."
    ∷ []

-- `path` is what the settings name as the file of the connection.
unfoldable pub read_pinned : (Str → Option Str) → Option Str → Option Str
read_pinned read none = none
read_pinned read (some path) = if is_empty path then none else read path

-- The file that the connection is pinned to, where it has one that can be read.
unfoldable pub pinned_text : (Str → Option Str) → Data → Option Str
pinned_text read data' = read_pinned read (data' (str "nm-openvpn3-profile"))

-- `text` is what the pinned file holds.
unfoldable pub text_or_settings : Option Str → Data → Str
text_or_settings none data' = unlines warning ++ emit (from_nm_data data')
text_or_settings (some text) data' = text

unfoldable pub connection_to_ovpn_text : (Str → Option Str) → Data → Str
connection_to_ovpn_text read data' = text_or_settings (pinned_text read data') data'

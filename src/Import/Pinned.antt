-- ===== src/Import/Pinned.antt =====
-- An imported connection is exported as the file that it was imported from.
use nm_openvpn.Base.{Option, Str, false, refl, some, str, true, ◌≡◌}
use nm_openvpn.Base.Maps.{Map, insert_self}
use nm_openvpn.Text.{any_char, is_empty}
use nm_openvpn.Ovpn.Defs.{OvpnConfig, ok}
use nm_openvpn.Ovpn.Parse.{parse}
use nm_openvpn.Export.Pinned.{connection_to_ovpn_text, pinned_text, read_pinned, text_or_settings}
use nm_openvpn.Import.Connection.{
  System, OvpnPath, Connection, add_data_item, connection_of, is_c_string, ovpn_text_to_connection,
  pin,
}

key-is_c_string : is_c_string (str "nm-openvpn3-profile") ≡ true
unfolding is_c_string any_char str
key-is_c_string = refl

pub pin_self :
    (p : Str) (items : Map Str)
    → is_c_string p ≡ true
    → pin (some p) items (str "nm-openvpn3-profile") ≡ some p
unfolding pin add_data_item
pin_self p items h = rw (key-is_c_string, h) (insert_self (str "nm-openvpn3-profile") p items)

pinned_text_lem :
    (read : Str → Option Str) (p t : Str) (items : Map Str)
    → items (str "nm-openvpn3-profile") ≡ some p
    → is_empty p ≡ false
    → read p ≡ some t
    → pinned_text read items ≡ some t
unfolding pinned_text read_pinned
pinned_text_lem read p t items h full e = rw (h, full) e

pinned_export :
    (read : Str → Option Str) (p t : Str) (items : Map Str)
    → is_c_string p ≡ true
    → is_empty p ≡ false
    → read p ≡ some t
    → connection_to_ovpn_text read (pin (some p) items) ≡ t
unfolding connection_to_ovpn_text text_or_settings
pinned_export read p t items h full e =
    rw (pinned_text_lem read p t (pin (some p) items) (pin_self p items h) full e) refl

-- If the text of an .ovpn file is parsed, the import gives a connection, and an export of that
-- connection is what the file holds by then, as long as it can be read: the path has to be UTF-8
-- without a NUL, and not empty.
pub ovpn_text_to_connection-export :
    (sys : System) (path : OvpnPath) (text : Str) (config : OvpnConfig) (read : Str → Option Str)
    (p t : Str)
    → parse text ≡ ok config
    → path.shown ≡ some p
    → is_c_string p ≡ true
    → is_empty p ≡ false
    → read p ≡ some t
    → (c : Connection) × (ovpn_text_to_connection sys path text ≡ ok c)
      × (connection_to_ovpn_text read c.items ≡ t)
unfolding ovpn_text_to_connection connection_of
ovpn_text_to_connection-export sys path text config read p t parsed shown whole full readable = (
  connection_of sys path config,
  rw parsed refl,
  rw shown (pinned_export read p t _ whole full readable),
)

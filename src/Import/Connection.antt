-- ===== src/Import/Connection.antt =====
-- nm-openvpn3-properties/src/bridge.rs: `ovpn_text_to_connection`, the connection of an .ovpn file.
-- A connection of libnm is the values that are set on it; messages to the terminal are left out.
use nm_openvpn.Base.{
  Bool, List, Option, Str, [], false, if◌then◌else◌, none, not, some, str, str_eq, true, ℕ, ◌&&◌,
  ◌++◌, ◌==◌, ◌||◌, ◌∷◌,
}
use nm_openvpn.Base.Maps.{Map, empty, insert}
use nm_openvpn.Text.{any_char, is_empty, is_whitespace, lines, split, trim}
use nm_openvpn.Ovpn.Defs.{Directive, OvpnConfig, Result, blob, ok, option, ◌>>=◌}
use nm_openvpn.Ovpn.Parse.{parse}
use nm_openvpn.Import.Build.{as_nm_data}
use nm_openvpn.Import.BlobName.{as_bytes, blob_filename}

-- What the code asks of the system: the small regular files beside the .ovpn file by name, the
-- directory for key files if there is a secure one, the write of a file there (`true` if it
-- succeeds), base64, and the table of letters and digits.
pub record System : Type 0 where
  pub read_beside : Str → Option Str
  pub secure_cert_dir : Option Str
  pub write_blob : Str → List ℕ → Bool
  pub decode : Str → Option (List ℕ)
  pub is_alphanumeric : ℕ → Bool

-- The path of the file: `file_stem()` and the whole of it, where these are UTF-8.
pub record OvpnPath : Type 0 where
  pub file_stem : Option Str
  pub shown : Option Str

pub record Connection : Type 0 where
  pub id : Str
  pub items : Map Str
  pub secrets : Map Str

-- `CString::new` takes the string.
unfoldable pub is_c_string : Str → Bool
is_c_string s = not (any_char (λ c. c == 0) s)

unfoldable pub add_data_item : Str → Str → Map Str → Map Str
add_data_item k v items = if is_c_string k && is_c_string v then insert k v items else items

unfoldable pub remove : Str → Map Str → Map Str
remove key d j = if str_eq j key then none else d j

-- A piece between slashes that `components` leaves out, and one that is a name.
unfoldable pub is_void : Str → Bool
is_void p = is_empty p || str_eq p (str ".")

unfoldable pub is_normal : Str → Bool
is_normal p = not (is_void p) && not (str_eq p (str ".."))

unfoldable pub all_void : List Str → Bool
all_void [] = true
all_void (p ∷ ps) = is_void p && all_void ps

unfoldable pub is_one_name : List Str → Bool
is_one_name [] = false
is_one_name (p ∷ ps) = is_normal p && all_void ps

-- The path is a single `Component::Normal`.
unfoldable pub safe_name : Str → Bool
safe_name file = is_one_name (split (λ c. c == b'/') file)

unfoldable pub next_line : List Str → Str
next_line [] = []
next_line (l ∷ ls) = trim l

unfoldable pub second_line : List Str → Str
second_line [] = []
second_line (l ∷ ls) = next_line ls

-- `data'` is the map of the import and `secrets` what the connection holds.
pub record Imported : Type 0 where
  pub data' : Map Str
  pub secrets : Map Str

unfoldable pub take_credentials : List Str → Map Str → Imported
take_credentials ls d =
    let user = next_line ls in
    let pass = second_line ls in
    record {
      data' = if is_empty user then d else insert (str "http-proxy-username") user d;
      secrets =
          if is_empty pass then empty else add_data_item (str "http-proxy-password") pass empty;
    }

unfoldable pub take_contents : Option Str → Map Str → Imported
take_contents none d = record { data' = d; secrets = empty }
take_contents (some contents) d = take_credentials (lines contents) d

unfoldable pub take_authfile : System → Option Str → Map Str → Imported
take_authfile sys none d = record { data' = d; secrets = empty }
take_authfile sys (some file) d =
    let d = remove (str "http-proxy-auth-file") d in
    if safe_name file
    then take_contents (sys.read_beside file) d
    else record { data' = d; secrets = empty }

unfoldable pub only_items : Str → Option Str → Option Str
only_items k none = none
only_items k (some v) = if is_c_string k && is_c_string v then some v else none

-- The loop over the map.
unfoldable pub items_of : Map Str → Map Str
items_of d k = only_items k (d k)

unfoldable pub or_raw : Str → Option (List ℕ) → List ℕ
or_raw body none = as_bytes body
or_raw body (some bytes) = bytes

unfoldable pub without_blanks : Str → Str
without_blanks [] = []
without_blanks (c ∷ s) = let rest = without_blanks s in if is_whitespace c then rest else c ∷ rest

unfoldable pub blob_bytes : System → Str → Str → List ℕ
blob_bytes sys name body =
    if str_eq name (str "pkcs12")
    then or_raw body (sys.decode (without_blanks body))
    else as_bytes body

unfoldable pub point_at : Str → Str → Map Str → Map Str
point_at name path items =
    let items = insert name path items in
    if str_eq name (str "pkcs12")
    then insert (str "key") path (insert (str "cert") path (insert (str "ca") path items))
    else items

unfoldable pub add_blob : System → Str → Str → Str → Str → Map Str → Map Str
add_blob sys dir id name body items =
    let path = dir ++ b'/' ∷ blob_filename sys.is_alphanumeric id name in
    if sys.write_blob path (blob_bytes sys name body) && is_c_string name && is_c_string path
    then point_at name path items
    else items

unfoldable pub add_directive : System → Str → Str → Directive → Map Str → Map Str
add_directive sys dir id (option name args) items = items
add_directive sys dir id (blob name body) items = add_blob sys dir id name body items

unfoldable pub add_blobs : System → Str → Str → List Directive → Map Str → Map Str
add_blobs sys dir id [] items = items
add_blobs sys dir id (d ∷ ds) items = add_blobs sys dir id ds (add_directive sys dir id d items)

unfoldable pub write_blobs : System → Option Str → Str → List Directive → Map Str → Map Str
write_blobs sys none id ds items = items
write_blobs sys (some dir) id ds items = add_blobs sys dir id ds items

unfoldable pub pin : Option Str → Map Str → Map Str
pin none items = items
pin (some path) items = add_data_item (str "nm-openvpn3-profile") path items

unfoldable pub stem_or_default : Option Str → Str
stem_or_default none = str "openvpn3"
stem_or_default (some s) = s

unfoldable pub c_id : Str → Str
c_id id = if is_c_string id then id else str "openvpn3"

unfoldable pub connection_of : System → OvpnPath → OvpnConfig → Connection
connection_of sys path config =
    let id = stem_or_default path.file_stem in
    let d = as_nm_data config in
    let taken = take_authfile sys (d (str "http-proxy-auth-file")) d in
    record {
      id = c_id id;
      items =
          pin path.shown
            (write_blobs sys sys.secure_cert_dir id config.directives (items_of taken.data'));
      secrets = taken.secrets;
    }

unfoldable pub ovpn_text_to_connection : System → OvpnPath → Str → Result Connection
ovpn_text_to_connection sys path text = do config ← parse text; ok (connection_of sys path config)

-- ===== src/Dialog/Needs.antt =====
-- `needs`, with `secret_required_flag` and `is_encrypted_keyfile_path`: which secrets to ask for.
pub mod Hints
use nm_openvpn.Base.{
  Bool, List, Option, Str, [], false, if◌then◌else◌, ltb, map, none, not, one_of, some, str, str_eq,
  true, ℕ, ◌%◌, ◌&&◌, ◌*◌, ◌++◌, ◌/◌, ◌==◌, ◌||◌, ◌∷◌,
}
use nm_openvpn.Text.{contains_str, ends_with, is_empty, lower_char, parse_u32, strip_prefix}
use nm_openvpn.Base.Maps.{Map}

pub record Needed : Type 0 where
  pub password : Bool
  pub certpass : Bool
  pub proxypass : Bool
  pub challenge_response : Bool
  pub challenge_response_echo : Bool
  pub prompt : Option Str

-- `Needed::default()`
unfoldable pub nothing_needed : Needed
nothing_needed = record {
  password = false;
  certpass = false;
  proxypass = false;
  challenge_response = false;
  challenge_response_echo = false;
  prompt = none;
}

-- What the file system gives for a path that could be opened: the kind and the length of the file,
-- and at most `MAX_KEYFILE_BYTES + 1` of its bytes, as text where they are UTF-8. Each part may
-- fail.
pub record Opened : Type 0 where
  pub metadata : Option (Bool × ℕ)
  pub bytes : Option (ℕ × Option Str)

abbrev pub Files : Type 0
Files = Str → Option Opened

unfoldable pub max_keyfile_bytes : ℕ
max_keyfile_bytes = 256 * 1024

-- `from_utf8(&bytes).unwrap_or("")`, searched for the two markers
unfoldable pub has_marker : Option Str → Bool
has_marker none = false
has_marker (some text) =
    contains_str (str "Proc-Type: 4,ENCRYPTED") text
    || contains_str (str "BEGIN ENCRYPTED PRIVATE KEY") text

unfoldable pub scan_bytes : Option (ℕ × Option Str) → Bool
scan_bytes none = true
scan_bytes (some (len, text)) = if ltb max_keyfile_bytes len then true else has_marker text

unfoldable pub scan_file : Option Opened → Bool
scan_file none = true
scan_file (some file) = elim file.metadata [
  | none ↦ true
  | some (is_file, len) ↦
      if not is_file || ltb max_keyfile_bytes len then true else scan_bytes file.bytes
]

unfoldable pub is_encrypted_keyfile_path : Files → Str → Bool
is_encrypted_keyfile_path fs path =
    let lower = map lower_char path in
    if ends_with (str ".p12") lower || ends_with (str ".pfx") lower
    then true
    else scan_file (fs path)

-- `raw.parse().unwrap_or(0)`, and the bit 0x4 of it
unfoldable pub bits_of : Option ℕ → ℕ
bits_of none = 0
bits_of (some n) = n

unfoldable pub is_required : Option Str → Bool
is_required none = true
is_required (some raw) = bits_of (parse_u32 raw) / 4 % 2 == 0

unfoldable pub secret_required_flag : Map Str → Str → Bool
secret_required_flag data' key = is_required (data' (key ++ str "-flags"))

-- The `match` on a hint that is no message.
unfoldable pub need_hint : Needed → Str → Needed
need_hint out h =
    if str_eq h (str "password")
    then record out { password = true }
    else if str_eq h (str "cert-pass")
    then record out { certpass = true }
    else if str_eq h (str "http-proxy-password")
    then record out { proxypass = true }
    else if one_of (str "challenge-response" ∷ str "x-dynamic-challenge:challenge-response" ∷ []) h
    then record out { challenge_response = true }
    else if str_eq h (str "x-dynamic-challenge-echo:challenge-response")
    then record out { challenge_response = true; challenge_response_echo = true }
    else out

-- `if out.prompt.is_none() { out.prompt = Some(msg) }`
unfoldable pub first_prompt : Option Str → Str → Option Str
first_prompt none msg = some msg
first_prompt (some p) msg = some p

unfoldable pub read_hint : Needed → Str → Option Str → Needed
read_hint out h none = need_hint out h
read_hint out h (some msg) = record out { prompt = first_prompt out.prompt msg }

unfoldable pub vpn_msg_tag : Str
vpn_msg_tag = str "x-vpn-message:"

unfoldable pub read_hints : Needed → List Str → Needed
read_hints out [] = out
read_hints out (h ∷ hs) = read_hints (read_hint out h (strip_prefix vpn_msg_tag h)) hs

unfoldable pub key_needed : Files → Option Str → Bool
key_needed fs none = false
key_needed fs (some path) = is_encrypted_keyfile_path fs path

unfoldable pub proxy_needed : Map Str → Option Str → Bool
proxy_needed data' none = false
proxy_needed data' (some proxy) =
    not (is_empty proxy) && secret_required_flag data' (str "http-proxy-password")

-- The `match` on the connection type.
unfoldable pub infer_type : Files → Map Str → Str → Needed
infer_type fs data' ctype =
    let asks = secret_required_flag data' (str "password") in
    if one_of (str "tls" ∷ str "password-tls" ∷ []) ctype
    then record nothing_needed {
      password = str_eq ctype (str "password-tls") && asks;
      certpass = key_needed fs (data' (str "key"));
    }
    else if str_eq ctype (str "password")
    then record nothing_needed { password = asks }
    else nothing_needed

unfoldable pub infer : Files → Map Str → Option Str → Needed
infer fs data' none = nothing_needed
infer fs data' (some ctype) = record (infer_type fs data' ctype) {
  proxypass = proxy_needed data' (data' (str "proxy-server"));
}

unfoldable pub needs : Files → Map Str → List Str → Needed
needs fs data' [] = infer fs data' (data' (str "connection-type"))
needs fs data' (h ∷ hs) = read_hints nothing_needed (h ∷ hs)

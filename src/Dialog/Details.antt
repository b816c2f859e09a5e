-- ===== src/Dialog/Details.antt =====
-- `read_vpn_details`, on the text of standard input.
pub mod RoundTrip
use nm_openvpn.Base.{
  Bool, List, Option, Str, [], false, if◌then◌else◌, map, none, one_of, some, str, str_eq, true,
  ◌&&◌, ◌∷◌, ◌++◌,
}
use nm_openvpn.Text.{is_empty, lines, split_once}
use nm_openvpn.Base.Maps.{Map, empty, insert}

-- The loop's variables. `current_key` is the pending key, and whether it is that of a secret.
pub record Details : Type 0 where
  pub data' : Map Str
  pub secrets : Map Str
  pub current_key : Option (Str × Bool)

-- The value of the pending key.
unfoldable pub data_value : Details → Str → Option (Str × Bool) → Details
data_value d value (some (k, false)) = record d {
  data' = insert k value d.data';
  current_key = none;
}
data_value d value (some (k, true)) = d
data_value d value none = d

unfoldable pub secret_value : Details → Str → Option (Str × Bool) → Details
secret_value d value (some (k, true)) = record d {
  secrets = insert k value d.secrets;
  current_key = none;
}
secret_value d value (some (k, false)) = d
secret_value d value none = d

-- The `match` on a line `prefix=value`.
unfoldable pub entry : Details → Str → Str → Details
entry d prefix value =
    if one_of (str "DATA_KEY" ∷ str "SECRET_KEY" ∷ []) prefix && is_empty value
    then record d { current_key = none }
    else if str_eq prefix (str "DATA_KEY")
    then record d { current_key = some (value, false) }
    else if str_eq prefix (str "DATA_VAL")
    then data_value d value d.current_key
    else if str_eq prefix (str "SECRET_KEY")
    then record d { current_key = some (value, true) }
    else if str_eq prefix (str "SECRET_VAL")
    then secret_value d value d.current_key
    else d

unfoldable pub parts_of : Details → Option (Str × Str) → Details
parts_of d none = d
parts_of d (some (prefix, value)) = entry d prefix value

unfoldable pub read_line : Details → Str → Details
read_line d line =
    if is_empty line then record d { current_key = none } else parts_of d (split_once b'=' line)

-- `none` is a line that cannot be read.
unfoldable pub read_lines : Details → List (Option Str) → Option Details
read_lines d [] = some d
read_lines d (none ∷ lines) = none
read_lines d (some line ∷ lines) =
    let rest = read_lines (read_line d line) lines in
    if str_eq line (str "DONE") then some d else rest

-- Standard input up to the first line that cannot be read or is not UTF-8, and whether there is one.
pub record Input : Type 0 where
  pub text : Str
  pub broken : Bool

-- `reader.lines()`, which takes `\n` and a `\r` before it off each line
unfoldable pub input_lines : Input → List (Option Str)
input_lines stdin = map some (lines stdin.text) ++ (if stdin.broken then none ∷ [] else [])

unfoldable pub read_vpn_details : Input → Option Details
read_vpn_details stdin =
    read_lines (record { data' = empty; secrets = empty; current_key = none }) (input_lines stdin)

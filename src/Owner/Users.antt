-- ===== src/Owner/Users.antt =====
-- `username_to_uid`, `lowest_run_user_uid` and the choice of `do_connect` between them.
use nm_openvpn.Base.{
  List, Option, Str, [], if◌then◌else◌, leb, ltb, none, some, suc, zero, ℕ, ◌*◌, ◌==◌, ◌^◌, ◌∷◌,
}
use nm_openvpn.Text.{parse_u32}
use nm_openvpn.Import.Connection.{is_c_string}
use nm_openvpn.Secrets.Settings.{Conversions, Settings, permission_users}

-- What `getpwnam_r` answers; `too_small` is ERANGE.
pub data Lookup : Type 0 where
  found : ℕ → Lookup
  too_small : Lookup
  unknown : Lookup

-- `getpwnam` looks a name up with a buffer of the given size; `suggested` is what `sysconf` gives,
-- where that is positive; `run_user` holds the names in /run/user, where these can be read.
pub record Host : Type 0 where
  pub getpwnam : Str → ℕ → Lookup
  pub suggested : Option ℕ
  pub run_user : Option (List Str)

-- The loop, with at most `fuel` calls; `none` if these are not enough.
unfoldable pub look_up : (ℕ → Lookup) → ℕ → ℕ → Option (Option ℕ)
look_up ask zero bufsize = none
look_up ask (suc fuel) bufsize = elim (ask bufsize) [
  | found uid ↦ some (some uid)
  | unknown ↦ some none
  | too_small ↦ if ltb bufsize (2 ^ 20) then look_up ask fuel (bufsize * 2) else some none
]

unfoldable pub size_or_default : Option ℕ → ℕ
size_or_default none = 4096
size_or_default (some n) = n

unfoldable pub settled : Option (Option ℕ) → Option ℕ
settled none = none
settled (some o) = o

unfoldable pub username_to_uid : Host → Str → Option ℕ
username_to_uid host name =
    if is_c_string name
    then settled (look_up (host.getpwnam name) 22 (size_or_default host.suggested))
    else none

unfoldable pub smaller : ℕ → Option ℕ → Option ℕ
smaller n none = some n
smaller n (some m) = if leb n m then some n else some m

-- `filter(|&uid| uid != 0).min()`, an entry at a time
unfoldable pub add_uid : Option ℕ → Option ℕ → Option ℕ
add_uid none least = least
add_uid (some uid) least = if uid == 0 then least else smaller uid least

unfoldable pub least_uid : List Str → Option ℕ
least_uid [] = none
least_uid (name ∷ names) = let rest = least_uid names in add_uid (parse_u32 name) rest

unfoldable pub least_of : Option (List Str) → Option ℕ
least_of none = none
least_of (some names) = least_uid names

unfoldable pub lowest_run_user_uid : Host → Option ℕ
lowest_run_user_uid host = least_of host.run_user

unfoldable pub or_else : Option ℕ → Option ℕ → Option ℕ
or_else none o = o
or_else (some uid) o = some uid

-- `find_map(|u| username_to_uid(&u))`
unfoldable pub first_uid : Host → List Str → Option ℕ
first_uid host [] = none
first_uid host (u ∷ us) = let rest = first_uid host us in or_else (username_to_uid host u) rest

module _ {V : Type 0} (ops : Conversions V) where
  unfoldable pub grant_uid : Host → Settings V → Option ℕ
  grant_uid host settings =
      or_else (first_uid host (permission_users ops settings)) (lowest_run_user_uid host)

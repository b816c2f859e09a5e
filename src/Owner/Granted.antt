-- ===== src/Owner/Granted.antt =====
-- Whom the session is granted to.
use nm_openvpn.Base.{true, ◌^◌, List, Option, Str, [], none, some, ℕ, ◌∷◌, ◌≡◌, ◌≤◌, ◌<◌, ◌⊎◌, ◌++◌}
use nm_openvpn.Base.Lists.{All}
use nm_openvpn.Text.{parse_u32}
use nm_openvpn.Secrets.Settings.{Settings}
use nm_openvpn.Owner.Found.{Needs}
use nm_openvpn.Import.Connection.{is_c_string}
use nm_openvpn.Owner.Users.{Host, Lookup, size_or_default, unknown}

-- The user database: what is documented of `getpwnam_r` on it. The entry of a user fits a buffer of
-- 1 MiB, and a buffer that is too small for it is reported as such; nobody else is found.
abbrev pub IsEntry : (ℕ → Lookup) → Option ℕ → Type 0
IsEntry ask none = (b : ℕ) → ask b ≡ unknown
IsEntry ask (some uid) = (need : ℕ) × (need ≤ 2 ^ 20) × Needs ask need uid

pub record IsDatabase (host : Host) (db : Str → Option ℕ) : Type 0 where
  pub positive : 0 < size_or_default host.suggested
  pub entries : (name : Str) → IsEntry (host.getpwnam name) (db name)
  pub whole : (name : Str) (uid : ℕ) → db name ≡ some uid → is_c_string name ≡ true

abbrev IsNone : (Str → Option ℕ) → List Str → Type 0
IsNone db users = All (λ u. db u ≡ none) users

abbrev pub AtLeast : ℕ → Option ℕ → Type 0
AtLeast uid none = Unit {0}
AtLeast uid (some n) = (n ≡ 0) ⊎ (uid ≤ n)

abbrev pub IsRootOrNone : Option ℕ → Type 0
IsRootOrNone none = Unit {0}
IsRootOrNone (some n) = n ≡ 0

abbrev pub AnyName : (Str → Type 0) → List Str → Type 0
AnyName P [] = ⊥
AnyName P (x ∷ xs) = P x ⊎ AnyName P xs

-- The least of the UIDs but 0, or that there is none.
abbrev pub IsLeast : List Str → Option ℕ → Type 0
IsLeast names none = All (λ name. IsRootOrNone (parse_u32 name)) names
IsLeast names (some uid) =
    (0 < uid)
    × AnyName (λ name. parse_u32 name ≡ some uid) names
    × All (λ name. AtLeast uid (parse_u32 name)) names

-- Whom a session is granted to.
pub data IsOwner (db : Str → Option ℕ) (users names : List Str) (o : Option ℕ) : Type 0 where
  permitted :
      (before after : List Str) (name : Str) (uid : ℕ)
      → users ≡ before ++ name ∷ after
      → IsNone db before
      → db name ≡ some uid
      → o ≡ some uid
      → IsOwner db users names o
  guessed : IsNone db users → IsLeast names o → IsOwner db users names o

-- The names in /run/user; none where it cannot be read.
abbrev pub listed : Option (List Str) → List Str
listed none = []
listed (some names) = names

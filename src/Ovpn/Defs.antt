-- ===== src/Ovpn/Defs.antt =====
-- `Directive`, `OvpnConfig` and the names of the inline blobs.
use nm_openvpn.Base.{List, Option, Str, [], if◌then◌else◌, none, some, str, str_eq, ℕ, ◌∷◌}
use nm_openvpn.Quote.{TokenError}

pub data Directive : Type 0 where
  -- `name arg1 arg2 …`
  option : (name : Str) (args : List Str) → Directive
  -- `<name>`, the body with its newlines, `</name>`
  blob : (name body : Str) → Directive

pub record OvpnConfig : Type 0 where
  pub directives : List Directive

unfoldable pub inline_blob_names : List Str
unfolding str
inline_blob_names =
    str "ca"
    ∷ str "cert"
    ∷ str "extra-certs"
    ∷ str "crl-verify"
    ∷ str "key"
    ∷ str "pkcs12"
    ∷ str "secret"
    ∷ str "tls-auth"
    ∷ str "tls-crypt"
    ∷ str "tls-crypt-v2"
    ∷ []

-- `args.first()` and `args.get(1)`
unfoldable pub first : List Str → Option Str
first [] = none
first (a ∷ args) = some a

unfoldable pub second : List Str → Option Str
second [] = none
second (a ∷ []) = none
second (a ∷ b ∷ args) = some b

-- `OvpnConfig::option`: the arguments of the first directive of that name.
unfoldable pub find_option : Str → List Directive → Option (List Str)
unfolding str_eq
find_option name [] = none
find_option name (option n args ∷ ds) =
    let rest = find_option name ds in if str_eq n name then some args else rest
find_option name (blob n body ∷ ds) = find_option name ds

-- `OvpnConfig::blob`
unfoldable pub find_blob : Str → List Directive → Option Str
unfolding str_eq
find_blob name [] = none
find_blob name (option n args ∷ ds) = find_blob name ds
find_blob name (blob n body ∷ ds) =
    let rest = find_blob name ds in if str_eq n name then some body else rest

pub data ConfigError : Type 0 where
  -- an option that `validate` refuses
  requires_value not_numeric out_of_range bad_value : (name : Str) → ConfigError
  requires_two_integers bad_keepalive : ConfigError
  -- a line that `parse` refuses, with its number
  bad_line : ℕ → TokenError → ConfigError
  unterminated_blob unsupported_blob : ℕ → (name : Str) → ConfigError

pub data Result {ℓ} (A : Type ℓ) : Type ℓ where
  ok : A → Result A
  err : ConfigError → Result A

-- The `?` of the source: an error ends the function.
infixl 5 ◌>>=◌
abbrev pub ◌>>=◌ {ℓ κ} : {A : Type ℓ} {B : Type κ} → Result A → (A → Result B) → Result B
err why >>= after = err why
ok x >>= after = after x

infixl 5 ◌>>◌
abbrev pub ◌>>◌ {ℓ} : {C : Type ℓ} → Result (Unit {0}) → Result C → Result C
err why >> after = err why
ok _ >> after = after

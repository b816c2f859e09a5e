-- ===== src/Owner/Overrides.antt =====
-- `apply_overrides`: the calls to openvpn3, in order. Whether one fails is only logged.
use nm_openvpn.Base.{
  Bool, List, Option, Str, [], false, if◌then◌else◌, is_some_str, none, not, some, str, str_eq,
  within, ℕ, ◌&&◌, ◌++◌, ◌∷◌,
}
use nm_openvpn.Base.Maps.{Map}
use nm_openvpn.Text.{from_str_radix, is_empty}

pub data Override : Type 0 where
  set_bool : (name : Str) → Override
  set_string : (name value : Str) → Override

abbrev pub override_bools : List (Str × Str)
override_bools =
    (str "override-route-nopull", str "route-nopull")
    ∷ (str "override-force-default-gateway", str "force-default-gateway")
    ∷ (str "override-block-ipv6", str "block-ipv6")
    ∷ (str "override-dns-setup-disabled", str "dns-setup-disabled")
    ∷ (str "override-dco", str "dco")
    ∷ []

unfoldable pub bool_overrides : List (Str × Str) → Map Str → List Override
bool_overrides [] d = []
bool_overrides ((key, name) ∷ keys) d =
    let rest = bool_overrides keys d in
    if is_some_str (d key) (str "yes") then set_bool name ∷ rest else rest

unfoldable pub level_in_range : Option ℕ → Bool
level_in_range none = false
level_in_range (some n) = within 1 6 n

unfoldable pub level_override : Option Str → List Override
level_override none = []
level_override (some level) =
    if not (is_empty level) && not (str_eq level (str "0"))
    then if level_in_range (from_str_radix 10 255 level)
      then set_string (str "log-level") level ∷ []
      else []
    else []

unfoldable pub apply_overrides : Map Str → List Override
apply_overrides d = bool_overrides override_bools d ++ level_override (d (str "override-log-level"))

-- ===== src/Base/Maps.antt =====
-- Maps from texts: a `HashMap<String, V>` as its lookup function.
use mathlib.Core.Bool.{false}
use mathlib.Core.List.{List, [], ◌∷◌}
use mathlib.Core.Option.{Option, none, some}
use mathlib.Core.Path.{◌≡◌}
use nm_openvpn.Base.Strings.{Str, str_eq, str_eq_refl}
use nm_openvpn.Base.Tests.{if◌then◌else◌}

abbrev pub Map {ℓ} : Type ℓ → Type ℓ
Map V = Str → Option V

module _ {ℓ} {V : Type ℓ} where
  abbrev pub empty : Map V
  empty k = none

  -- `map.insert(k, v)`
  unfoldable pub insert : Str → V → Map V → Map V
  insert k v m j = if str_eq j k then some v else m j

  pub insert_self : (k : Str) (v : V) (m : Map V) → insert k v m k ≡ some v
  unfolding insert
  insert_self k v m = rw (str_eq_refl k)

  pub insert_ne : (k j : Str) (v : V) (m : Map V) → str_eq j k ≡ false → insert k v m j ≡ m j
  unfolding insert
  insert_ne k j v m h = rw h

  -- Every pair put into the map, in order.
  unfoldable pub insert_all : List (Str × V) → Map V → Map V
  insert_all [] m = m
  insert_all ((k, v) ∷ ps) m = insert_all ps (insert k v m)

-- ===== src/Base/Strings.antt =====
-- Text as the list of its code points, and equality on it.
use Prim.Native.Char.{code}
use Prim.Native.Nat.{ℕ}
use Prim.Native.String.{String}
use mathlib.Core.Bool.{Bool, true, false, ◌&&◌}
use mathlib.Core.List.{List, [], ◌∷◌}
use mathlib.Core.Logic.{◌↔◌}
use mathlib.Core.Option.{Option, none, some}
use mathlib.Core.Path.{◌≡◌, refl}
use native.Mathlib.Omega.{arith}
use nm_openvpn.Base.Tests.{◌==◌}

-- A Rust `String` or `&str`, as the sequence of its `char`s.
abbrev pub Str : Type 0
Str = List ℕ

-- A literal.
unfoldable pub str : String → Str
str String.[] = []
str (String.◌∷◌ c s) = code c ∷ str s

unfoldable pub str_eq : Str → Str → Bool
str_eq [] [] = true
str_eq (x ∷ xs) (y ∷ ys) = x == y && str_eq xs ys
str_eq _ _ = false

pub str_eq_iff : (a b : Str) → (str_eq a b ≡ true) ↔ (a ≡ b)
unfolding str_eq
str_eq_iff (x ∷ a) (y ∷ b) = ground (arith, str_eq_iff a b)
str_eq_iff _ _ = ground arith

pub str_eq_refl : (a : Str) → str_eq a a ≡ true
str_eq_refl a = (str_eq_iff a a).1 refl

-- `o == Some(s)`
unfoldable pub is_some_str : Option Str → Str → Bool
is_some_str none s = false
is_some_str (some t) s = str_eq t s

-- `matches!(s, "a" | "b" | …)`, and `[…].contains(&s)`.
unfoldable pub one_of : List Str → Str → Bool
one_of [] s = false
one_of (t ∷ ts) s = elim (str_eq s t) [ true ↦ true | false ↦ one_of ts s ]

-- ===== src/Text/Split.antt =====
-- `split`, `splitn`, `split_once`, `split_whitespace` and `join`.
use nm_openvpn.Base.{
  Bool, List, Option, Str, [], false, none, some, suc, true, zero, ℕ, ◌++◌, ◌==◌, ◌∷◌,
}
use nm_openvpn.Text.Chars.{is_whitespace}

unfoldable pub cut : (ℕ → Bool) → Str → Str → List Str
cut sep [] cur = cur ∷ []
cut sep (c ∷ s) cur = elim (sep c) [ true ↦ cur ∷ cut sep s [] | false ↦ cut sep s (cur ++ c ∷ []) ]

-- `s.split(sep)`: never an empty list.
unfoldable pub split : (ℕ → Bool) → Str → List Str
split sep s = cut sep s []

unfoldable pub cut_n : ℕ → ℕ → Str → Str → List Str
cut_n zero sep s cur = []
cut_n (suc zero) sep s cur = (cur ++ s) ∷ []
cut_n (suc (suc n)) sep [] cur = cur ∷ []
cut_n (suc (suc n)) sep (c ∷ s) cur = elim (c == sep) [
  | true ↦ cur ∷ cut_n (suc n) sep s []
  | false ↦ cut_n (suc (suc n)) sep s (cur ++ c ∷ [])
]

-- `s.splitn(n, sep)`: at most `n` pieces, the last with the rest of the text.
unfoldable pub splitn : ℕ → ℕ → Str → List Str
splitn n sep s = cut_n n sep s []

unfoldable pub cut_once : ℕ → Str → Str → Option (Str × Str)
cut_once sep [] cur = none
cut_once sep (c ∷ s) cur = elim (c == sep) [
  | true ↦ some (cur, s)
  | false ↦ cut_once sep s (cur ++ c ∷ [])
]

-- `s.split_once(sep)`
unfoldable pub split_once : ℕ → Str → Option (Str × Str)
split_once sep s = cut_once sep s []

unfoldable pub drop_empty : List Str → List Str
drop_empty [] = []
drop_empty ([] ∷ ws) = drop_empty ws
drop_empty ((c ∷ w) ∷ ws) = (c ∷ w) ∷ drop_empty ws

unfoldable pub split_whitespace : Str → List Str
split_whitespace s = drop_empty (split is_whitespace s)

-- `pieces.join(sep)`
unfoldable pub join : Str → List Str → Str
join sep [] = []
join sep (w ∷ []) = w
join sep (w ∷ v ∷ ws) = w ++ (sep ++ join sep (v ∷ ws))

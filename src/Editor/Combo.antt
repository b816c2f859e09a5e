-- ===== src/Editor/Combo.antt =====
-- The row of a drop-down list shows the value that it was opened with.
use nm_openvpn.Base.{
  List, Option, Str, [], arith, Bool-cases, false, if◌then◌else◌, inl, inr, is_some_str, none, refl,
  some, str_eq, str_eq_iff, suc, zero, ℕ, ◌++◌, ◌+◌, ◌∷◌, ◌≡◌,
}
use nm_openvpn.Text.{is_empty}
use nm_openvpn.Editor.Widgets.{
  combo_row, count_ids, matched, nth, selected_id, unwrap_or, with_choice,
}

-- If an index is found, it is the place of `v`.
abbrev Points : List Str → Str → Option ℕ → Type 0
Points all v found = (i : ℕ) → found ≡ some i → nth all i ≡ some v

Points-if :
    (all : List Str) (v id : Str) (i : ℕ) (found : Option ℕ)
    → nth all i ≡ some id
    → Points all v found
    → Points all v (if is_some_str (some v) id then some i else found)
unfolding is_some_str
Points-if all v id i found here h = elim (Bool-cases (str_eq v id)) [
  | inl e ↦ rw e (λ j same. cc (here, (str_eq_iff v id).0 e))
  | inr e ↦ rw e h
]

Points-matched :
    (all ids : List Str) (v : Str) (i : ℕ) (found : Option ℕ)
    → ((k : ℕ) → nth all (i + k) ≡ nth ids k)
    → Points all v found
    → Points all v (matched (some v) i ids found)
unfolding matched nth
Points-matched all [] v i found rest h = h
Points-matched all (id ∷ ids) v i found rest h =
    Points-matched all ids v (suc i) (if is_some_str (some v) id then some i else found)
      (λ k. let e : i + suc k ≡ suc i + k = omega arith in rw (← e) (rest (suc k)))
      (Points-if all v id i found (let e : i + 0 ≡ i = omega arith in rw (← e) (rest zero)) h)

nth-append : (xs : List Str) (v : Str) → nth (xs ++ v ∷ []) (count_ids xs) ≡ some v
unfolding nth count_ids
nth-append [] v = refl
nth-append (x ∷ xs) v = nth-append xs v

selected-with_choice :
    (choices : List Str) (v : Str) (found : Option ℕ)
    → is_empty v ≡ false
    → Points choices v found
    → selected_id (with_choice choices (some v) found) ≡ v
unfolding selected_id with_choice unwrap_or
selected-with_choice choices v none full h = rw full (rw (nth-append choices v) refl)
selected-with_choice choices v (some i) full h = rw (h i refl) refl

points : (choices : List Str) (v : Str) → Points choices v (matched (some v) 0 choices none)
points choices v =
    Points-matched choices choices v 0 none (λ k. let e : 0 + k ≡ k = omega arith in rw e refl)
      (λ i h. cc)

-- Any value that is not empty is shown, also one outside the vocabulary.
pub selected-combo_row :
    (choices : List Str) (v : Str)
    → is_empty v ≡ false
    → selected_id (combo_row choices (some v)) ≡ v
unfolding combo_row
selected-combo_row choices v full =
    selected-with_choice choices v (matched (some v) 0 choices none) full (points choices v)

selected-with_choice_empty :
    (choices : List Str) (found : Option ℕ)
    → Points ([] ∷ choices) [] found
    → selected_id (with_choice ([] ∷ choices) (some []) found) ≡ []
unfolding selected_id with_choice unwrap_or nth is_empty
selected-with_choice_empty choices none h = refl
selected-with_choice_empty choices (some i) h = rw (h i refl, unwrap_or) refl

matched-none : (i : ℕ) (ids : List Str) → matched none i ids none ≡ none
unfolding matched is_some_str
matched-none i [] = refl
matched-none i (id ∷ ids) = matched-none (suc i) ids

-- Where the first choice is the empty one, the row shows what is set, or nothing.
pub selected-combo_row_optional :
    (choices : List Str) (initial : Option Str)
    → selected_id (combo_row ([] ∷ choices) initial) ≡ unwrap_or [] initial
unfolding combo_row with_choice selected_id nth unwrap_or
selected-combo_row_optional choices none = rw (matched-none 0 ([] ∷ choices)) refl
selected-combo_row_optional choices (some []) =
    selected-with_choice_empty choices (matched (some []) 0 ([] ∷ choices) none)
      (points ([] ∷ choices) [])
selected-combo_row_optional choices (some (c ∷ s)) =
    selected-combo_row ([] ∷ choices) (c ∷ s) (unfold is_empty in refl)

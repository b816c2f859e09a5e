-- ===== src/Import/ByName.antt =====
-- Laws of the table of arms.
use nm_openvpn.Base.{
  Bool-cases, List, Str, [], false, inl, inr, map, one_of, refl, str_eq, str_eq_iff, sym, true, ◌∙◌,
  ◌∷◌, ◌≡◌,
}
use nm_openvpn.Base.Lists.{All}
use mathlib.Core.Path.{subst}
use mathlib.Core.Bool.{true≢false}
use nm_openvpn.Text.Laws.{one_of-elim}
use nm_openvpn.Import.Arms.{Arm, arms, arm_among, arm_of, dropped}

-- What holds of each pair of the table, and of `dropped` for every other name, holds of a name and
-- its arm.
arm_among-elim {ℓ} :
    (P : Str → Arm → Type ℓ) (table : List (Str × Arm)) (n : Str)
    → All (λ na. P na.0 na.1) table
    → (one_of (map (λ na. na.0) table) n ≡ false → P n dropped)
    → P n (arm_among table n)
unfolding arm_among one_of
arm_among-elim P [] n ps other = other refl
arm_among-elim P ((name, arm) ∷ rest) n (p, ps) other = elim (Bool-cases (str_eq n name)) [
  | inl e ↦ rw (e, arm_among) (subst (λ m. P m arm) (sym ((str_eq_iff n name).0 e)) p)
  | inr e ↦ rw (e, arm_among) (arm_among-elim P rest n ps (λ h. other (rw (e, one_of) h)))
]

pub arm-elim {ℓ} :
    (P : Str → Arm → Type ℓ) (n : Str)
    → All (λ na. P na.0 na.1) arms
    → (one_of (map (λ na. na.0) arms) n ≡ false → P n dropped)
    → P n (arm_of n)
unfolding arm_of
arm-elim P n ps other = arm_among-elim P arms n ps other

-- A name outside the table is none of these words, if the table has them.
pub unlisted :
    (names words : List Str) (n : Str)
    → All (λ w. one_of names w ≡ true) words
    → one_of names n ≡ false
    → one_of words n ≡ false
unlisted names words n listed h = elim (Bool-cases (one_of words n)) [
  | inl e ↦
      absurd (true≢false (sym (one_of-elim (λ w. one_of names w ≡ true) words n listed e) ∙ h))
  | inr e ↦ e
]

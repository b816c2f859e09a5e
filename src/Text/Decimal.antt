-- ===== src/Text/Decimal.antt =====
-- A number that is printed is read back.
use nm_openvpn.Text.Chars.{is_empty}
use nm_openvpn.Base.{
  sym, append-nil, ◌^◌, Str, [], ap, append_assoc, arith, Bool-cases, false, inl, inr, ltb, refl,
  some, suc, zero, ℕ, ◌%◌, ◌*◌, ◌++◌, ◌+◌, ◌/◌, ◌∙◌, ◌∷◌, ◌<◌, ◌≡◌, ◌≤◌,
}
use nm_openvpn.Text.Number.{digits, pos, read_digits, to_digit, to_string}

abbrev tens : ℕ → ℕ
tens zero = 1
tens (suc fuel) = 10 * tens fuel

to_digit_lem : (d : ℕ) → d < 10 → to_digit 10 (b'0' + d) ≡ some d
unfolding to_digit
to_digit_lem d h = ground arith

read_digit :
    (top acc d : ℕ) (s : Str)
    → d < 10
    → acc * 10 + d ≤ top
    → read_digits 10 top acc ((b'0' + d) ∷ s) ≡ read_digits 10 top (acc * 10 + d) s
unfolding read_digits
read_digit top acc d s small bound = ground (arith, to_digit_lem d)

read_digits-digits :
    (top fuel n : ℕ) (rest : Str)
    → n < tens fuel
    → n ≤ top
    → read_digits 10 top 0 (digits fuel n ++ rest) ≡ read_digits 10 top n rest
unfolding digits
read_digits-digits top zero n rest h bound = let e : n ≡ 0 = omega arith in rw e refl
read_digits-digits top (suc fuel) n rest h bound = elim (Bool-cases (ltb n 10)) [
  | inl few ↦ rw few (
      read_digit top 0 n rest (ground arith) (omega arith)
      ∙ ap (λ k. read_digits 10 top k rest) (let e : 0 * 10 + n ≡ n = omega arith in e))
  | inr more ↦ rw more (
      rw append_assoc (
        read_digits-digits top fuel (n / 10) ((b'0' + n % 10) ∷ rest) (omega arith) (omega arith)
        ∙ read_digit top (n / 10) (n % 10) rest (omega arith) (omega arith)
        ∙ ap (λ k. read_digits 10 top k rest)
            (let e : n / 10 * 10 + n % 10 ≡ n = omega arith in e)))
]

append-full : (s : Str) (c : ℕ) → is_empty (s ++ c ∷ []) ≡ false
unfolding is_empty
append-full [] c = refl
append-full (d ∷ s) c = refl

digits-full : (fuel n : ℕ) → is_empty (digits (suc fuel) n) ≡ false
unfolding digits is_empty
digits-full fuel n = elim (Bool-cases (ltb n 10)) [
  | inl few ↦ rw few refl
  | inr more ↦ rw more (append-full (digits fuel (n / 10)) (b'0' + n % 10))
]

-- A number that is printed is not empty, and its digits are read back.
pub read_digits-to_string :
    (top n : ℕ)
    → n ≤ top
    → n < 10 ^ 19
    → (is_empty (to_string (pos n)) ≡ false) × (read_digits 10 top 0 (to_string (pos n)) ≡ some n)
unfolding to_string
read_digits-to_string top n h bound = (digits-full 19 n, whole top n h bound)
  where
    whole : (top n : ℕ) → n ≤ top → n < 10 ^ 19 → read_digits 10 top 0 (digits 20 n) ≡ some n
    whole top n h bound =
        ap (read_digits 10 top 0) (sym (append-nil (digits 20 n)))
        ∙ read_digits-digits top 20 n [] (omega arith) h
        ∙ (unfold read_digits in refl)

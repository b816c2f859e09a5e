-- ===== src/Files/Bounded.antt =====
-- What a guarded read gives.
use nm_openvpn.Base.{
  Bool, List, Option, Str, [], ap, arith, false, if◌then◌else◌, none, refl, some, suc, true, zero,
  ℕ, ◌∙◌, ◌∷◌, ◌≡◌, ◌≤◌, sym,
}
use nm_openvpn.Files.Defs.{Node, count, directory, fifo, file, link, take}
use nm_openvpn.Files.Read.{
  Moment, Reading, checked, error, failed, too_long, read_buffer, read_capped, text,
}

-- A prefix that is not full is the whole.
pub take_short :
    (n : ℕ) (bs : List ℕ) → count (take (suc n) bs) ≤ n → (take (suc n) bs ≡ bs) × (count bs ≤ n)
unfolding take count
take_short n [] h = (refl, h)
take_short zero (b ∷ bs) h = absurd (omega arith)
take_short (suc n) (b ∷ bs) h =
    let (e, short) = take_short n bs (omega arith) in (ap (λ t. b ∷ t) e, omega arith)

pub take_all : (n : ℕ) (bs : List ℕ) → count bs ≤ n → take n bs ≡ bs
unfolding take count
take_all zero [] h = refl
take_all zero (b ∷ bs) h = absurd (omega arith)
take_all (suc n) [] h = refl
take_all (suc n) (b ∷ bs) h = ap (λ t. b ∷ t) (take_all n bs (omega arith))

checked-text :
    (max : ℕ) (buf : List ℕ) (o : Option Str) (s : Str)
    → checked max buf o ≡ text s
    → (count buf ≤ max) × (o ≡ some s)
unfolding checked
checked-text max buf none s h = cc
checked-text max buf (some t) s h = ground arith

not_refused :
    (fails long : Bool) (r : Reading) (s : Str)
    → (if fails then error failed else if long then error too_long else r) ≡ text s
    → r ≡ text s
not_refused true long r s h = cc
not_refused false true r s h = cc
not_refused false false r s h = h

read_buffer-text :
    (m : Moment) (max : ℕ) (now : List ℕ) (s : Str)
    → read_buffer m max (take (suc max) now) ≡ text s
    → (m.decode now ≡ some s) × (count now ≤ max)
unfolding read_buffer
read_buffer-text m max now s h =
    let (short, decoded) = checked-text max (take (suc max) now) _ s h in
    let (e, bound) = take_short max now short in (ap m.decode (sym e) ∙ decoded, bound)

-- A guarded read that gives a text has found a regular file at the very path, never a link; the text
-- is all that the file held when it was read, and that is within the bound, also where the file
-- grew after the first check.
pub read_capped-text :
    (m : Moment) (max : ℕ) (node : Option Node) (s : Str)
    → read_capped m max node ≡ text s
    → (mode : ℕ) × (bytes : List ℕ) × (node ≡ some (file mode bytes))
      × (m.decode (m.later bytes) ≡ some s)
      × (count (m.later bytes) ≤ max)
unfolding read_capped
read_capped-text m max none s h = cc
read_capped-text m max (some (link target)) s h = cc
read_capped-text m max (some fifo) s h = cc
read_capped-text m max (some directory) s h = cc
read_capped-text m max (some (file mode bytes)) s h =
    let (decoded, bound) = read_buffer-text m max (m.later bytes) s (not_refused _ _ _ s h) in
    (mode, bytes, refl, decoded, bound)

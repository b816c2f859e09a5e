-- ===== src/Owner/Found.antt =====
-- When the lookup of a user ends, and whom it finds.
use nm_openvpn.Base.{
  Bool-cases, Option, Str, ap, arith, false, if◌then◌else◌, inl, inr, ltb, none, refl, some, suc,
  true, zero, ℕ, ◌*◌, ◌^◌, ◌∙◌, ◌≡◌, ◌≤◌, ◌<◌,
}
use nm_openvpn.Import.Connection.{is_c_string}
use nm_openvpn.Owner.Users.{
  Host, Lookup, found, look_up, settled, size_or_default, too_small, unknown, username_to_uid,
}

-- The entry of the user takes `need` bytes.
abbrev pub Needs : (ℕ → Lookup) → ℕ → ℕ → Type 0
Needs ask need uid = (b : ℕ) → ask b ≡ (if ltb b need then too_small else found uid)

not_below : (b need : ℕ) → need ≤ b → ltb b need ≡ false
not_below b need h = ground arith

-- Twice as much, `fuel` times.
abbrev doubled : ℕ → ℕ → ℕ
doubled zero b = b
doubled (suc fuel) b = doubled fuel (b * 2)

look_up_found :
    (ask : ℕ → Lookup) (fuel b uid : ℕ)
    → ask b ≡ found uid
    → look_up ask (suc fuel) b ≡ some (some uid)
unfolding look_up
look_up_found ask fuel b uid e = rw (e, look_up) refl

look_up_more :
    (ask : ℕ → Lookup) (fuel b : ℕ)
    → ask b ≡ too_small
    → ltb b (2 ^ 20) ≡ true
    → look_up ask (suc fuel) b ≡ look_up ask fuel (b * 2)
unfolding look_up
look_up_more ask fuel b e more = rw (e, look_up) (rw more refl)

below : (b need : ℕ) → ltb b need ≡ true → need ≤ 2 ^ 20 → ltb b (2 ^ 20) ≡ true
below b need h k = ground arith

look_up-Needs :
    (ask : ℕ → Lookup) (need uid fuel b : ℕ)
    → Needs ask need uid
    → need ≤ 2 ^ 20
    → need ≤ doubled fuel b
    → look_up ask (suc fuel) b ≡ some (some uid)
look_up-Needs ask need uid zero b h small enough =
    look_up_found ask 0 b uid
      (h b ∙ ap (λ t. if t then too_small else found uid) (not_below b need enough))
look_up-Needs ask need uid (suc fuel) b h small enough = elim (Bool-cases (ltb b need)) [
  | inl more ↦
      look_up_more ask (suc fuel) b (h b ∙ ap (λ t. if t then too_small else found uid) more)
        (below b need more small)
      ∙ look_up-Needs ask need uid fuel (b * 2) h small enough
  | inr done ↦
      look_up_found ask (suc fuel) b uid (h b ∙ ap (λ t. if t then too_small else found uid) done)
]

long_enough : (b need : ℕ) → 0 < b → need ≤ 2 ^ 20 → need ≤ doubled 21 b
long_enough b need h k = omega arith

-- A user whose entry takes at most 1 MiB is found, whatever size of buffer the system suggests,
-- before the calls that the loop can make run out.
pub username_to_uid-Needs :
    (host : Host) (name : Str) (need uid : ℕ)
    → is_c_string name ≡ true
    → 0 < size_or_default host.suggested
    → Needs (host.getpwnam name) need uid
    → need ≤ 2 ^ 20
    → username_to_uid host name ≡ some uid
unfolding username_to_uid settled
username_to_uid-Needs host name need uid whole positive h small =
    rw
      (
        whole,
        look_up-Needs (host.getpwnam name) need uid 21 (size_or_default host.suggested) h small
            (long_enough (size_or_default host.suggested) need positive small),
      )
      refl

pub look_up_unknown :
    (ask : ℕ → Lookup) (fuel b : ℕ) → ask b ≡ unknown → look_up ask (suc fuel) b ≡ some none
unfolding look_up
look_up_unknown ask fuel b e = rw (e, look_up) refl

look_up_given_up :
    (ask : ℕ → Lookup) (fuel b : ℕ)
    → ask b ≡ too_small
    → ltb b (2 ^ 20) ≡ false
    → look_up ask (suc fuel) b ≡ some none
unfolding look_up
look_up_given_up ask fuel b e done = rw (e, look_up) (rw done refl)

-- The rest of the loop, after an answer.
look_up_answered :
    (ask : ℕ → Lookup) (fuel b : ℕ) (l : Lookup)
    → ask b ≡ l
    → 2 ^ 20 ≤ doubled fuel b
    → (r : Option ℕ) × (look_up ask (suc fuel) b ≡ some r)
look_up_answered ask fuel b (found uid) e enough = (some uid, look_up_found ask fuel b uid e)
look_up_answered ask fuel b unknown e enough = (none, look_up_unknown ask fuel b e)
look_up_answered ask zero b too_small e enough =
    (none, look_up_given_up ask 0 b e (not_below b (2 ^ 20) enough))
look_up_answered ask (suc fuel) b too_small e enough = elim (Bool-cases (ltb b (2 ^ 20))) [
  | inr done ↦ (none, look_up_given_up ask (suc fuel) b e done)
  | inl more ↦
      let (r, ended) = look_up_answered ask fuel (b * 2) (ask (b * 2)) refl enough in
      (r, look_up_more ask (suc fuel) b e more ∙ ended)
]

-- The loop ends, whatever the system answers, after 22 calls at most.
pub look_up_settles :
    (host : Host) (name : Str)
    → 0 < size_or_default host.suggested
    → (r : Option ℕ) × (look_up (host.getpwnam name) 22 (size_or_default host.suggested) ≡ some r)
look_up_settles host name positive =
    look_up_answered (host.getpwnam name) 21 (size_or_default host.suggested) _ refl
      (long_enough (size_or_default host.suggested) (2 ^ 20) positive (omega arith))

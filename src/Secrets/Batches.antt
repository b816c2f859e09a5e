-- ===== src/Secrets/Batches.antt =====
-- What `new_secrets` provides, and what it says of the rest.
use nm_openvpn.Base.{
  Bool, Bool-cases, List, Option, Option-cases, Str, [], ap, arith, false, if◌then◌else◌, inl, inr,
  ltb, none, not, refl, some, suc, true, zero, ℕ, ◌+◌, ◌∷◌, ◌≡◌,
}
use nm_openvpn.Secrets.NewSecrets.{
  Batch, Fed, Meets, answered, could_not_provide, ended, feed_session, feed_slots, feed_value,
  new_secrets, provided, refresh,
}
use nm_openvpn.Secrets.Settings.{Conversions, Settings, split_vpn}
use nm_openvpn.Secrets.Attention.{Stash, Provide}
use nm_openvpn.Base.Maps.{Map}
use nm_openvpn.Secrets.Slots.{InputSlot, value_on_hand}
use nm_openvpn.Secrets.Outcome.{with_value}

-- No teardown is asked for while the loop runs.
pub record NeverTorn (meets : Meets) : Type 0 where
  pub before : (slot : InputSlot) → meets.torn_before slot ≡ false
  pub after : (slot : InputSlot) → meets.torn_after slot ≡ false

-- The slots that openvpn3 has not got a value for: no value is on hand, or it is refused.
abbrev pub is_unmet : Provide → InputSlot → Option Str → Bool
is_unmet provide slot none = true
is_unmet provide slot (some value) = not (provide slot value)

unfoldable pub unmet : Provide → Map Str → Map Str → List InputSlot → ℕ
unmet provide data' secrets [] = 0
unmet provide data' secrets (slot ∷ slots) =
    if is_unmet provide slot (value_on_hand data' secrets slot)
    then suc (unmet provide data' secrets slots)
    else unmet provide data' secrets slots

unfoldable pub count {ℓ} : {A : Type ℓ} → List A → ℕ
count [] = 0
count (a ∷ rest) = suc (count rest)

module _ (meets : Meets) (quiet : NeverTorn meets) (data' secrets : Map Str) where
  abbrev Untorn : List InputSlot → Type 0
  Untorn slots =
      ((feed_slots meets data' secrets slots).calls ≡ with_value data' secrets slots)
      × ((feed_slots meets data' secrets slots).missing ≡ unmet meets.provide data' secrets slots)
      × ((feed_slots meets data' secrets slots).sent + unmet meets.provide data' secrets slots
          ≡ count slots)
      × ((feed_slots meets data' secrets slots).torn ≡ false)

  feed_slots-Untorn : (slots : List InputSlot) → Untorn slots
  unfolding feed_slots feed_value answered with_value unmet count
  feed_slots-Untorn [] = (refl, refl, refl, refl)
  feed_slots-Untorn (slot ∷ slots) =
      let (calls, missing, total, torn) = feed_slots-Untorn slots in
      elim (Option-cases (value_on_hand data' secrets slot)) [
        | inl h ↦
            rw (quiet.before slot, h, feed_value, with_value, unmet)
              (calls, ap suc missing, omega arith, torn)
        | inr (v, h) ↦ elim (Bool-cases (meets.provide slot v)) [
          | inl g ↦
              rw (quiet.before slot, h, feed_value, answered, with_value, unmet, g)
                (ap ((slot, v) ∷◌) calls, missing, omega arith, torn)
          | inr g ↦
              rw
                (quiet.before slot, h, feed_value, answered, with_value, unmet, g, quiet.after slot)
                (ap ((slot, v) ∷◌) calls, ap suc missing, omega arith, torn)
        ]
      ]

-- How the handler should end for a number of slots that have got no value, of all those pending.
abbrev pub verdict : ℕ → ℕ → Fed
verdict zero pending = provided pending
verdict (suc n) pending = could_not_provide (suc n)

positive : (m : ℕ) → ltb 0 (suc m) ≡ true
positive m = ground arith

ended-verdict :
    (batch : Batch) (m n : ℕ)
    → batch.torn ≡ false
    → batch.missing ≡ m
    → batch.sent + m ≡ n
    → ended batch ≡ verdict m n
unfolding ended
ended-verdict batch zero n torn missing total = rw (torn, missing) (ap provided (omega arith))
ended-verdict batch (suc m) n torn missing total = rw (torn, missing, positive m) refl

-- When no teardown comes, new_secrets hands openvpn3 every value that the new settings hold for a
-- pending slot, in order, and keeps the new settings; no slot stays pending. It succeeds if every
-- slot got a value that was taken, and else fails with the number of those that did not.
pub new_secrets-verdict :
    {V : Type 0} (ops : Conversions V) (meets : Meets) (connection : Settings V) (s : Stash)
    (path : Str) (slot : InputSlot) (slots : List InputSlot)
    → NeverTorn meets
    → s.session_path ≡ some path
    → s.pending_slots ≡ slot ∷ slots
    → ((new_secrets ops meets connection s).calls
        ≡ with_value (split_vpn ops connection).0 (split_vpn ops connection).1 (slot ∷ slots))
      × ((new_secrets ops meets connection s).fed
          ≡ verdict
              (unmet meets.provide
                (split_vpn ops connection).0
                (split_vpn ops connection).1
                (slot ∷ slots))
              (count (slot ∷ slots)))
      × ((new_secrets ops meets connection s).stash ≡ record s {
        current_data = (split_vpn ops connection).0;
        current_secrets = (split_vpn ops connection).1;
        pending_slots = [];
      })
unfolding new_secrets feed_session refresh
new_secrets-verdict ops meets connection s path slot slots quiet live pending =
    let (calls, missing, total, torn) =
      feed_slots-Untorn meets quiet (split_vpn ops connection).0 (split_vpn ops connection).1
        (slot ∷ slots) in
    rw (live, pending) (calls, ended-verdict _ _ _ torn missing total, refl)

-- ===== src/Secrets/Teardown.antt =====
-- `new_secrets` racing a Disconnect.
use nm_openvpn.Base.{
  Bool-cases, List, Option, Option-cases, Str, [], ap, false, inl, inr, none, refl, some, ◌++◌, ◌∷◌,
  ◌≡◌,
}
use nm_openvpn.Base.Lists.{All}
use nm_openvpn.Base.Maps.{Map}
use nm_openvpn.Secrets.Slots.{InputSlot, value_on_hand}
use nm_openvpn.Secrets.Attention.{Stash}
use nm_openvpn.Secrets.Settings.{Conversions, Settings, split_vpn}
use nm_openvpn.Secrets.NewSecrets.{
  Meets, answered, feed_value, feed_slots, feed_session, new_secrets,
}
use nm_openvpn.Secrets.Outcome.{with_value}

-- These calls are the first of those planned, and the flag was clear before each of them.
pub record CutShort (meets : Meets) (planned calls : List (InputSlot × Str)) : Type 0 where
  pub dropped : List (InputSlot × Str)
  pub first_calls : calls ++ dropped ≡ planned
  pub flag_clear : All (λ sv. meets.torn_before sv.0 ≡ false) calls

module _ (meets : Meets) (data' secrets : Map Str) where
  no_calls : (planned : List (InputSlot × Str)) → CutShort meets planned []
  no_calls planned = record { dropped = planned; first_calls = refl; flag_clear = tt }

  one_call :
      (slot : InputSlot) (v : Str) (planned calls : List (InputSlot × Str))
      → meets.torn_before slot ≡ false
      → CutShort meets planned calls
      → CutShort meets ((slot, v) ∷ planned) ((slot, v) ∷ calls)
  one_call slot v planned calls clear c = record {
    dropped = c.dropped;
    first_calls = ap ((slot, v) ∷◌) c.first_calls;
    flag_clear = (clear, c.flag_clear);
  }

  feed_slots-CutShort :
      (slots : List InputSlot)
      → CutShort meets (with_value data' secrets slots) (feed_slots meets data' secrets slots).calls
  unfolding feed_slots feed_value answered with_value
  feed_slots-CutShort [] = no_calls []
  feed_slots-CutShort (slot ∷ slots) =
      let rest = feed_slots-CutShort slots in
      elim (Bool-cases (meets.torn_before slot)) [
        | inl t ↦ rw t (no_calls _)
        | inr clear ↦ elim (Option-cases (value_on_hand data' secrets slot)) [
          | inl h ↦ rw (clear, h, feed_value, with_value) rest
          | inr (v, h) ↦ elim (Bool-cases (meets.provide slot v)) [
            | inl g ↦
                rw (clear, h, feed_value, answered, with_value, g) (one_call slot v _ _ clear rest)
            | inr g ↦ elim (Bool-cases (meets.torn_after slot)) [
              | inl late ↦
                  rw (clear, h, feed_value, answered, with_value, g, late)
                    (one_call slot v _ _ clear (no_calls _))
              | inr quiet ↦
                  rw (clear, h, feed_value, answered, with_value, g, quiet)
                    (one_call slot v _ _ clear rest)
            ]
          ]
        ]
      ]

  feed_session-CutShort :
      (s : Stash) (path : Option Str) (slots : List InputSlot)
      → CutShort meets
          (with_value data' secrets slots)
          (feed_session meets data' secrets s path slots).calls
  unfolding feed_session
  feed_session-CutShort s path [] = no_calls _
  feed_session-CutShort s none (slot ∷ slots) = no_calls _
  feed_session-CutShort s (some path) (slot ∷ slots) = feed_slots-CutShort (slot ∷ slots)

-- Whenever a teardown comes, the calls of new_secrets are an initial part of the values that the new
-- settings hold for the pending slots, in order, and none of them is made for a slot at which the
-- teardown flag was already set.
pub new_secrets-CutShort :
    {V : Type 0} (ops : Conversions V) (meets : Meets) (connection : Settings V) (s : Stash)
    → CutShort meets
        (with_value (split_vpn ops connection).0 (split_vpn ops connection).1 s.pending_slots)
        (new_secrets ops meets connection s).calls
unfolding new_secrets
new_secrets-CutShort ops meets connection s =
    feed_session-CutShort meets _ _ _ s.session_path s.pending_slots

-- ===== src/Secrets/Burst.antt =====
-- A burst of AttentionRequired after the credentials have come, and new_secrets racing a teardown.
use mathlib.Core.Bool.{true≢false}
use nm_openvpn.Base.{
  Bool, Bool-cases, List, Option-cases, Str, [], ap, arith, false, inl, inr, is_some_str, none,
  refl, some, str_eq_refl, suc, sym, true, zero, ℕ, ◌∙◌, ◌∷◌, ◌≡◌,
}
use nm_openvpn.Secrets.NewSecrets.{
  Fed, no_pending, no_session, torn_down, Meets, new_secrets, could_not_provide, provided,
}
use nm_openvpn.Base.Maps.{Map}
use nm_openvpn.Secrets.Slots.{InputSlot, value_on_hand}
use nm_openvpn.Secrets.Queue.{InputQueue, session_fetch_input_slots}
use nm_openvpn.Secrets.Attention.{
  Provide, Stash, all_provided, ask_for_rest, attend, handle_attention, provide_or_keep,
  provide_slot, provide_slots,
}
use nm_openvpn.Secrets.Settings.{Conversions, Settings}
use nm_openvpn.Secrets.Outcome.{with_value}
use nm_openvpn.Secrets.Batches.{unmet, NeverTorn, verdict, new_secrets-verdict}

met-provided :
    (provide : Provide) (data' secrets : Map Str) (slots : List InputSlot)
    → unmet provide data' secrets slots ≡ 0
    → provide_slots provide data' secrets slots
      ≡ record { sent = with_value data' secrets slots; still_needed = []; refused = none }
unfolding unmet provide_slots provide_or_keep provide_slot with_value
met-provided provide data' secrets [] h = refl
met-provided provide data' secrets (slot ∷ slots) h =
    elim (Option-cases (value_on_hand data' secrets slot)) [
      | inl g ↦ absurd (suc-nonzero (rw (g, unmet) at h))
      | inr (v, g) ↦ elim (Bool-cases (provide slot v)) [
        | inl k ↦
            rw (g, k, with_value)
              (rw (met-provided provide data' secrets slots (rw (g, unmet, k) at h)) refl)
        | inr k ↦ absurd (suc-nonzero (rw (g, unmet, k) at h))
      ]
    ]
  where
    suc-nonzero : {n : ℕ} → suc n ≡ 0 → ⊥
    suc-nonzero e = omega arith

verdict-zero : (m n k : ℕ) → verdict m n ≡ provided k → m ≡ 0
verdict-zero zero n k h = refl
verdict-zero (suc m) n k h = absurd (apart h)
  where
    is_provided : Fed → Bool
    is_provided (provided n) = true
    is_provided no_pending = false
    is_provided no_session = false
    is_provided torn_down = false
    is_provided (could_not_provide n) = false

    apart : could_not_provide (suc m) ≡ provided k → ⊥
    apart e = true≢false (sym (ap is_provided e))

-- Once new_secrets has succeeded, undisturbed, a later AttentionRequired of the same session that
-- brings the same slots asks the user nothing: every slot is provided from the settings that were
-- kept, with the same calls, if openvpn3 takes the same values again.
pub attention-new_secrets :
    {V : Type 0} (ops : Conversions V) (meets : Meets) (connection : Settings V) (s : Stash)
    (path : Str) (slot : InputSlot) (slots : List InputSlot) (n : ℕ) (queue : InputQueue)
    (emits : Bool) (msg : Str)
    → NeverTorn meets
    → s.session_path ≡ some path
    → s.pending_slots ≡ slot ∷ slots
    → (new_secrets ops meets connection s).fed ≡ provided n
    → session_fetch_input_slots queue ≡ some (slot ∷ slots)
    → handle_attention queue meets.provide emits path msg (new_secrets ops meets connection s).stash
      ≡ record {
        stash = (new_secrets ops meets connection s).stash;
        sent = (new_secrets ops meets connection s).calls;
        attended = all_provided;
      }
unfolding handle_attention attend ask_for_rest is_some_str
attention-new_secrets ops meets connection s path slot slots n queue emits msg quiet live pending
      fed fetched =
    let (calls, end, stash) =
      new_secrets-verdict ops meets connection s path slot slots quiet live pending in
    let none_unmet = verdict-zero _ _ n (sym end ∙ fed) in
    rw
      (
        fetched,
        calls,
        stash,
        live,
        str_eq_refl path,
        met-provided meets.provide _ _ (slot ∷ slots) none_unmet,
      )
      refl

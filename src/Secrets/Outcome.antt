-- ===== src/Secrets/Outcome.antt =====
-- What `handle_attention` does for a session that is still owned.
use nm_openvpn.Base.{
  Bool, Bool-cases, List, Option-cases, Str, [], ap, false, inl, inr, is_some_str, none, refl, some,
  true, ◌++◌, ◌∷◌, ◌≡◌, ◌⊎◌,
}
use nm_openvpn.Base.Lists.{All}
use nm_openvpn.Secrets.Queue.{InputQueue, session_fetch_input_slots}
use nm_openvpn.Secrets.Attention.{
  attend, ask_for_rest, handle_attention, Stash, Provide, Handled, provide_slot, provide_or_keep,
  provide_slots, hints_for, prompt_of, provide_failed, all_provided, asked,
}
use nm_openvpn.Base.Maps.{Map}
use nm_openvpn.Secrets.Slots.{InputSlot, value_on_hand}

-- The slots with a value on hand, with that value, and the slots without one, each in order.
unfoldable pub with_value : Map Str → Map Str → List InputSlot → List (InputSlot × Str)
with_value data' secrets [] = []
with_value data' secrets (slot ∷ slots) = elim (value_on_hand data' secrets slot) [
  | none ↦ with_value data' secrets slots
  | some value ↦ (slot, value) ∷ with_value data' secrets slots
]

unfoldable pub without_value : Map Str → Map Str → List InputSlot → List InputSlot
without_value data' secrets [] = []
without_value data' secrets (slot ∷ slots) = elim (value_on_hand data' secrets slot) [
  | none ↦ slot ∷ without_value data' secrets slots
  | some value ↦ without_value data' secrets slots
]

-- openvpn3 takes these values.
abbrev pub Taken : Provide → List (InputSlot × Str) → Type 0
Taken provide = All (λ sv. provide sv.0 sv.1 ≡ true)

module _ (provide : Provide) (data' secrets : Map Str) where
  -- The first value that is refused, and the run of the loop that ends there.
  record Refusal (slots : List InputSlot) : Type 0 where
    before : List InputSlot
    slot : InputSlot
    value : Str
    after : List InputSlot
    whole : slots ≡ before ++ slot ∷ after
    taken : Taken provide (with_value data' secrets before)
    on_hand : value_on_hand data' secrets slot ≡ some value
    refuses : provide slot value ≡ false
    run_sent :
        (provide_slots provide data' secrets slots).sent
        ≡ with_value data' secrets before ++ (slot, value) ∷ []
    run_refused : (provide_slots provide data' secrets slots).refused ≡ some slot

  record AllTaken (slots : List InputSlot) : Type 0 where
    all_taken : Taken provide (with_value data' secrets slots)
    ran : provide_slots provide data' secrets slots ≡ record {
      sent = with_value data' secrets slots;
      still_needed = without_value data' secrets slots;
      refused = none;
    }

  kept :
      (s : InputSlot) (slots : List InputSlot)
      → value_on_hand data' secrets s ≡ none
      → AllTaken slots ⊎ Refusal slots
      → AllTaken (s ∷ slots) ⊎ Refusal (s ∷ slots)
  unfolding provide_slots provide_or_keep with_value without_value
  kept s slots h (inl t) = inl (record {
    all_taken = rw (h, with_value) t.all_taken;
    ran = rw (h, t.ran, with_value, without_value) refl;
  })
  kept s slots h (inr r) = inr (record {
    before = s ∷ r.before;
    slot = r.slot;
    value = r.value;
    after = r.after;
    whole = ap (s ∷◌) r.whole;
    taken = rw (h, with_value) r.taken;
    on_hand = r.on_hand;
    refuses = r.refuses;
    run_sent = rw (h, with_value) r.run_sent;
    run_refused = rw h r.run_refused;
  })

  took :
      (s : InputSlot) (v : Str) (slots : List InputSlot)
      → value_on_hand data' secrets s ≡ some v
      → provide s v ≡ true
      → AllTaken slots ⊎ Refusal slots
      → AllTaken (s ∷ slots) ⊎ Refusal (s ∷ slots)
  unfolding provide_slots provide_or_keep provide_slot with_value without_value
  took s v slots h g (inl t) = inl (record {
    all_taken = rw (h, with_value) (g, t.all_taken);
    ran = rw (h, g, t.ran, with_value, without_value) refl;
  })
  took s v slots h g (inr r) = inr (record {
    before = s ∷ r.before;
    slot = r.slot;
    value = r.value;
    after = r.after;
    whole = ap (s ∷◌) r.whole;
    taken = rw (h, with_value) (g, r.taken);
    on_hand = r.on_hand;
    refuses = r.refuses;
    run_sent = rw (h, g, with_value) (ap ((s, v) ∷◌) r.run_sent);
    run_refused = rw (h, g) r.run_refused;
  })

  refused_here :
      (s : InputSlot) (v : Str) (slots : List InputSlot)
      → value_on_hand data' secrets s ≡ some v
      → provide s v ≡ false
      → Refusal (s ∷ slots)
  unfolding provide_slots provide_or_keep provide_slot with_value
  refused_here s v slots h g = record {
    before = [];
    slot = s;
    value = v;
    after = slots;
    whole = refl;
    taken = tt;
    on_hand = h;
    refuses = g;
    run_sent = rw (h, g) refl;
    run_refused = rw (h, g) refl;
  }

  provide_slots-cases : (slots : List InputSlot) → AllTaken slots ⊎ Refusal slots
  unfolding provide_slots with_value without_value
  provide_slots-cases [] = inl (record { all_taken = tt; ran = refl })
  provide_slots-cases (s ∷ slots) = elim (Option-cases (value_on_hand data' secrets s)) [
    | inl h ↦ kept s slots h (provide_slots-cases slots)
    | inr (v, h) ↦ elim (Bool-cases (provide s v)) [
      | inl g ↦ took s v slots h g (provide_slots-cases slots)
      | inr g ↦ inr (refused_here s v slots h g)
    ]
  ]

-- The three ways to end for the slots of a session that is still owned.
pub data Outcome (provide : Provide) (emits : Bool) (msg : Str) (stash : Stash)
    (slots : List InputSlot) : Handled → Type 0 where
  refusal :
      (before : List InputSlot) (slot : InputSlot) (value : Str) (after : List InputSlot)
      → slots ≡ before ++ slot ∷ after
      → Taken provide (with_value stash.current_data stash.current_secrets before)
      → value_on_hand stash.current_data stash.current_secrets slot ≡ some value
      → provide slot value ≡ false
      → Outcome provide emits msg stash slots (record {
        stash = stash;
        sent = with_value stash.current_data stash.current_secrets before ++ (slot, value) ∷ [];
        attended = provide_failed slot;
      })
  nothing_left :
      Taken provide (with_value stash.current_data stash.current_secrets slots)
      → without_value stash.current_data stash.current_secrets slots ≡ []
      → Outcome provide emits msg stash slots (record {
        stash = stash;
        sent = with_value stash.current_data stash.current_secrets slots;
        attended = all_provided;
      })
  rest_asked :
      (slot : InputSlot) (rest : List InputSlot)
      → Taken provide (with_value stash.current_data stash.current_secrets slots)
      → without_value stash.current_data stash.current_secrets slots ≡ slot ∷ rest
      → Outcome provide emits msg stash slots (record {
        stash = record stash { pending_slots = slot ∷ rest };
        sent = with_value stash.current_data stash.current_secrets slots;
        attended = asked (prompt_of msg) (hints_for msg (slot ∷ rest)) emits;
      })

ask_for_rest-Outcome :
    (provide : Provide) (emits : Bool) (msg : Str) (stash : Stash) (slots : List InputSlot)
    → AllTaken provide stash.current_data stash.current_secrets slots
      ⊎ Refusal provide stash.current_data stash.current_secrets slots
    → Outcome provide emits msg stash slots (
        ask_for_rest emits msg stash
          (provide_slots provide stash.current_data stash.current_secrets slots))
unfolding ask_for_rest
ask_for_rest-Outcome provide emits msg stash slots (inl t) =
    elim (left_cases (without_value stash.current_data stash.current_secrets slots)) [
      | inl h ↦ rw (t.ran, h) (nothing_left t.all_taken h)
      | inr (slot, rest, h) ↦ rw (t.ran, h) (rest_asked slot rest t.all_taken h)
    ]
  where
    left_cases :
        (l : List InputSlot)
        → (l ≡ []) ⊎ ((slot : InputSlot) × (rest : List InputSlot) × (l ≡ slot ∷ rest))
    left_cases [] = inl refl
    left_cases (slot ∷ rest) = inr (slot, rest, refl)
ask_for_rest-Outcome provide emits msg stash slots (inr r) =
    rw (r.run_refused, r.run_sent)
      (refusal r.before r.slot r.value r.after r.whole r.taken r.on_hand r.refuses)

-- With some slots fetched for the session that the plugin still owns, handle_attention ends in one
-- of three ways: it stops at the first value that is refused, leaves the session's state alone and
-- sends no signal; every value is taken and no slot is left; or every value is taken, and the slots
-- without one, in order, become the pending slots and the hints of a SecretsRequired signal.
pub handle_attention-Outcome :
    (queue : InputQueue) (provide : Provide) (emits : Bool) (path msg : Str) (stash : Stash)
    (slot : InputSlot) (slots : List InputSlot)
    → session_fetch_input_slots queue ≡ some (slot ∷ slots)
    → is_some_str stash.session_path path ≡ true
    → Outcome provide emits msg stash
        (slot ∷ slots)
        (handle_attention queue provide emits path msg stash)
unfolding handle_attention attend
handle_attention-Outcome queue provide emits path msg stash slot slots fetched owned =
    rw (fetched, owned)
      (ask_for_rest-Outcome provide emits msg stash (slot ∷ slots)
        (provide_slots-cases provide stash.current_data stash.current_secrets (slot ∷ slots)))

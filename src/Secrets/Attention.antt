-- ===== src/Secrets/Attention.antt =====
-- `handle_attention`: one AttentionRequired signal of openvpn3.
use nm_openvpn.Base.{
  Bool, List, Option, Str, [], false, if◌then◌else◌, is_some_str, map, none, not, some, str, true,
  ◌++◌, ◌∷◌,
}
use nm_openvpn.Text.{is_empty}
use nm_openvpn.Base.Maps.{Map}
use nm_openvpn.Secrets.Slots.{InputSlot, slot_to_vpn_key, value_on_hand}
use nm_openvpn.Secrets.Queue.{InputQueue, session_fetch_input_slots}

-- The fields of `SessionState` that the handlers of credentials read and write.
pub record Stash : Type 0 where
  pub session_path : Option Str
  pub current_data : Map Str
  pub current_secrets : Map Str
  pub pending_slots : List InputSlot

-- `session_provide_input` of the session: whether openvpn3 takes the value.
abbrev pub Provide : Type 0
Provide = InputSlot → Str → Bool

-- The loop over the slots: the calls of `session_provide_input`, the slots left, and the slot whose
-- value was refused.
pub record Provided : Type 0 where
  pub sent : List (InputSlot × Str)
  pub still_needed : List InputSlot
  pub refused : Option InputSlot

unfoldable pub provide_slot : Bool → InputSlot → Str → Provided → Provided
provide_slot true slot value rest = record rest { sent = (slot, value) ∷ rest.sent }
provide_slot false slot value rest = record {
  sent = (slot, value) ∷ [];
  still_needed = [];
  refused = some slot;
}

unfoldable pub provide_or_keep : Provide → InputSlot → Option Str → Provided → Provided
provide_or_keep provide slot none rest = record rest { still_needed = slot ∷ rest.still_needed }
provide_or_keep provide slot (some value) rest = provide_slot (provide slot value) slot value rest

unfoldable pub provide_slots : Provide → Map Str → Map Str → List InputSlot → Provided
provide_slots provide data' secrets [] = record { sent = []; still_needed = []; refused = none }
provide_slots provide data' secrets (slot ∷ slots) =
    provide_or_keep provide slot (value_on_hand data' secrets slot)
      (provide_slots provide data' secrets slots)

unfoldable pub hints_for : Str → List InputSlot → List Str
hints_for msg slots =
    let keys = map slot_to_vpn_key slots in
    if is_empty msg then keys else (str "x-vpn-message:" ++ msg) ∷ keys

unfoldable pub prompt_of : Str → Str
prompt_of msg = if is_empty msg then str "OpenVPN 3 needs authentication" else msg

-- How the handler ends. The last three of the first line are the ways to return `Ok` without a
-- signal; `asked` is a SecretsRequired signal with its prompt and its hints, and whether it could
-- be sent.
pub data Attended : Type 0 where
  fetch_failed queue_empty not_owned all_provided : Attended
  provide_failed : InputSlot → Attended
  asked : Str → List Str → Bool → Attended

-- The handler's end with the calls that it made and the session's state after it.
pub record Handled : Type 0 where
  pub stash : Stash
  pub sent : List (InputSlot × Str)
  pub attended : Attended

-- What follows the loop. `emits` says whether the signal can be sent.
unfoldable pub ask_for_rest : Bool → Str → Stash → Provided → Handled
ask_for_rest emits msg stash provided = elim provided.refused [
  | some slot ↦ record { stash = stash; sent = provided.sent; attended = provide_failed slot }
  | none ↦ elim provided.still_needed [
    | [] ↦ record { stash = stash; sent = provided.sent; attended = all_provided }
    | slot ∷ slots ↦ record {
      stash = record stash { pending_slots = slot ∷ slots };
      sent = provided.sent;
      attended = asked (prompt_of msg) (hints_for msg (slot ∷ slots)) emits;
    }
  ]
]

unfoldable pub attend : Provide → Bool → Str → Str → Stash → Option (List InputSlot) → Handled
attend provide emits path msg stash none = record {
  stash = stash;
  sent = [];
  attended = fetch_failed;
}
attend provide emits path msg stash (some []) = record {
  stash = stash;
  sent = [];
  attended = queue_empty;
}
attend provide emits path msg stash (some (slot ∷ slots)) =
    if not (is_some_str stash.session_path path)
    then record { stash = stash; sent = []; attended = not_owned }
    else ask_for_rest emits msg stash
        (provide_slots provide stash.current_data stash.current_secrets (slot ∷ slots))

unfoldable pub handle_attention : InputQueue → Provide → Bool → Str → Str → Stash → Handled
handle_attention queue provide emits path msg stash =
    attend provide emits path msg stash (session_fetch_input_slots queue)

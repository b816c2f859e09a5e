-- ===== src/Tests/Credentials.antt =====
-- Applications of the results on slots and credentials.
use nm_openvpn.Base.{
  Bool, List, Option, Str, [], false, is_some_str, map, none, refl, some, str, str_eq, suc, true,
  zero, ℕ, ◌↔◌, ◌∷◌, ◌≡◌,
}
use nm_openvpn.Text.{is_empty}
use nm_openvpn.Base.Maps.{Map, empty, insert}
use nm_openvpn.Dialog.Needs.{Files, needs}
use nm_openvpn.Secrets.Slots.{
  InputSlot, name_to_vpn_key, lookup_value, filled, value_on_hand, key_username, key_password,
  key_http_proxy_username,
}
use nm_openvpn.Secrets.Queue.{
  InputQueue, push_fetched, fetch_ids, fetch_checked, fetch_pairs, session_fetch_input_slots,
}
use nm_openvpn.Secrets.Attention.{Stash, Provide, handle_attention, hints_for, all_provided}
use nm_openvpn.Secrets.Settings.{
  Conversions, Settings, insert_str, flatten_entries, flatten_dict, flatten_str_map, flatten_clone,
  sub_dict, split_group, split_vpn,
}
use nm_openvpn.Secrets.NewSecrets.{
  Meets, answered, feed_value, feed_slots, ended, refresh, feed_session, new_secrets, provided,
}
use nm_openvpn.Secrets.Fetched.{IsQueued, fetch_input_slots-IsQueued}
use nm_openvpn.Secrets.Outcome.{Outcome, with_value, handle_attention-Outcome}
use nm_openvpn.Secrets.Batches.{NeverTorn, verdict, unmet, count, new_secrets-verdict}
use nm_openvpn.Secrets.Burst.{attention-new_secrets}
use nm_openvpn.Secrets.Teardown.{CutShort, new_secrets-CutShort}
use nm_openvpn.Secrets.Hints.{needed_for, needs-hints_for}
use mathlib.Core.List.{Memᴰ}

-- Values that are texts, or one dictionary of texts.
data Value : Type 0 where
  text : Str → Value
  dict : List (Str × Str) → Value

abbrev to_text : Value → Option Str
to_text (text s) = some s
to_text (dict ps) = none

abbrev to_pairs : Value → Option (List (Str × Value))
to_pairs (text s) = none
to_pairs (dict ps) = some (map (λ kv. (kv.0, text kv.1)) ps)

abbrev values : Conversions Value
values = record {
  try_clone = some;
  to_str_map = λ v. none;
  to_dict = to_pairs;
  to_str = to_text;
  to_strs = λ v. none;
}

abbrev vpn_group : Map Value
vpn_group =
    insert (str "data") (dict ((str "username", str "ann") ∷ []))
      (insert (str "secrets") (dict ((str "password", str "pw") ∷ [])) empty)

abbrev settings : Settings Value
settings = insert (str "vpn") vpn_group empty

abbrev ann : Map Str
ann = insert (str "username") (str "ann") empty

abbrev slot_of : ℕ → Str → InputSlot
slot_of i name = record {
  slot_type = 1;
  group = 2;
  id = i;
  name = name;
  description = [];
  mask_input = true;
}

abbrev described : ℕ → ℕ → ℕ → Option (Str × Str × Bool)
described t g zero = some (str "username", [], true)
described t g (suc zero) = none
described t g (suc (suc zero)) = some (str "password", [], true)
described t g (suc (suc (suc i))) = none

abbrev queue : InputQueue
queue = record {
  get_type_group = some ((1, 2) ∷ []);
  check = λ t g. some (0 ∷ 1 ∷ 2 ∷ []);
  fetch = described;
}

fetch_input_slots-IsQueued_example :
    (found : List InputSlot) × (session_fetch_input_slots queue ≡ some found)
    × ((slot : InputSlot) → Memᴰ slot found ↔ IsQueued queue ((1, 2) ∷ []) slot)
fetch_input_slots-IsQueued_example = fetch_input_slots-IsQueued queue ((1, 2) ∷ []) refl

abbrev user_slot : InputSlot
user_slot = slot_of 0 (str "username")

abbrev password_slot : InputSlot
password_slot = slot_of 2 (str "password")

queue_fetched : session_fetch_input_slots queue ≡ some (user_slot ∷ password_slot ∷ [])
unfolding session_fetch_input_slots fetch_pairs fetch_checked fetch_ids push_fetched
queue_fetched = refl

abbrev path : Str
path = str "/session"

abbrev asked_before : Stash
asked_before = record {
  session_path = some path;
  current_data = ann;
  current_secrets = empty;
  pending_slots = user_slot ∷ password_slot ∷ [];
}

owned : is_some_str asked_before.session_path path ≡ true
unfolding is_some_str str_eq str
owned = refl

abbrev takes : Provide
takes slot value = true

handle_attention-Outcome_example :
    Outcome takes true
      (str "Hello")
      asked_before
      (user_slot ∷ password_slot ∷ [])
      (handle_attention queue takes true path (str "Hello") asked_before)
handle_attention-Outcome_example =
    handle_attention-Outcome queue takes true path (str "Hello") asked_before user_slot
      (password_slot ∷ []) queue_fetched owned

abbrev meets : Meets
meets = record { provide = takes; torn_before = λ slot. false; torn_after = λ slot. false }

meets-NeverTorn : NeverTorn meets
meets-NeverTorn = record { before = λ slot. refl; after = λ slot. refl }

new_secrets-verdict_example :
    ((new_secrets values meets settings asked_before).calls
      ≡ with_value
          (split_vpn values settings).0
          (split_vpn values settings).1
          (user_slot ∷ password_slot ∷ []))
    × ((new_secrets values meets settings asked_before).fed
        ≡ verdict
            (unmet takes
              (split_vpn values settings).0
              (split_vpn values settings).1
              (user_slot ∷ password_slot ∷ []))
            (count (user_slot ∷ password_slot ∷ [])))
    × ((new_secrets values meets settings asked_before).stash ≡ record asked_before {
      current_data = (split_vpn values settings).0;
      current_secrets = (split_vpn values settings).1;
      pending_slots = [];
    })
new_secrets-verdict_example =
    new_secrets-verdict values meets settings asked_before path user_slot (password_slot ∷ [])
      meets-NeverTorn refl refl

both_provided : (new_secrets values meets settings asked_before).fed ≡ provided 2
unfolding new_secrets feed_session refresh feed_slots feed_value answered ended split_vpn
    split_group sub_dict flatten_clone flatten_str_map flatten_dict flatten_entries insert_str
    insert str_eq str value_on_hand filled lookup_value name_to_vpn_key key_username key_password
    key_http_proxy_username is_empty
both_provided = refl

attention-new_secrets_example :
    handle_attention queue takes true path [] (new_secrets values meets settings asked_before).stash
    ≡ record {
      stash = (new_secrets values meets settings asked_before).stash;
      sent = (new_secrets values meets settings asked_before).calls;
      attended = all_provided;
    }
attention-new_secrets_example =
    attention-new_secrets values meets settings asked_before path user_slot (password_slot ∷ []) 2
      queue true [] meets-NeverTorn refl refl both_provided queue_fetched

-- The teardown comes while the first value is on its way.
abbrev meets_teardown : Meets
meets_teardown = record {
  provide = λ slot value. false;
  torn_before = λ slot. false;
  torn_after = λ slot. true;
}

new_secrets-CutShort_example :
    CutShort meets_teardown
      (with_value
        (split_vpn values settings).0
        (split_vpn values settings).1
        (user_slot ∷ password_slot ∷ []))
      (new_secrets values meets_teardown settings asked_before).calls
new_secrets-CutShort_example = new_secrets-CutShort values meets_teardown settings asked_before

abbrev no_file : Files
no_file _ = none

needs-hints_for_example :
    needs no_file empty (hints_for (str "Hello") (user_slot ∷ password_slot ∷ []))
    ≡ needed_for (str "Hello") (user_slot ∷ password_slot ∷ [])
needs-hints_for_example = needs-hints_for no_file empty (str "Hello") user_slot (password_slot ∷ [])

-- ===== src/Secrets/NewSecrets.antt =====
-- `new_secrets`: the credentials that NetworkManager delivers for the slots that were asked for.
use nm_openvpn.Base.{
  Bool, List, Option, Str, [], false, if◌then◌else◌, ltb, none, some, suc, true, ℕ, ◌∷◌,
}
use nm_openvpn.Base.Maps.{Map}
use nm_openvpn.Secrets.Slots.{InputSlot, value_on_hand}
use nm_openvpn.Secrets.Attention.{Stash, Provide}
use nm_openvpn.Secrets.Settings.{Conversions, Settings, split_vpn}

-- What the loop meets at each slot: the teardown flag before the call and after a call that failed,
-- and whether openvpn3 takes a value.
pub record Meets : Type 0 where
  pub provide : Provide
  pub torn_before : InputSlot → Bool
  pub torn_after : InputSlot → Bool

-- The loop's calls, its counters, and whether it has stopped for a teardown.
pub record Batch : Type 0 where
  pub calls : List (InputSlot × Str)
  pub sent : ℕ
  pub missing : ℕ
  pub torn : Bool

-- The `match` on the answer of `session_provide_input`, with what the rest of the loop does.
unfoldable pub answered : Meets → InputSlot → Bool → Batch → Batch
answered meets slot true rest = record rest { sent = suc rest.sent }
answered meets slot false rest =
    if meets.torn_after slot
    then record { calls = []; sent = 0; missing = 0; torn = true }
    else record rest { missing = suc rest.missing }

-- The `match` on the value of a slot.
unfoldable pub feed_value : Meets → InputSlot → Option Str → Batch → Batch
feed_value meets slot none rest = record rest { missing = suc rest.missing }
feed_value meets slot (some value) rest =
    let after = answered meets slot (meets.provide slot value) rest in
    record after { calls = (slot, value) ∷ after.calls }

unfoldable pub feed_slots : Meets → Map Str → Map Str → List InputSlot → Batch
feed_slots meets data' secrets [] = record { calls = []; sent = 0; missing = 0; torn = false }
feed_slots meets data' secrets (slot ∷ pending) =
    let rest = feed_slots meets data' secrets pending in
    if meets.torn_before slot
    then record { calls = []; sent = 0; missing = 0; torn = true }
    else feed_value meets slot (value_on_hand data' secrets slot) rest

-- How the handler ends: the four first return `Ok`.
pub data Fed : Type 0 where
  no_pending no_session torn_down : Fed
  provided : ℕ → Fed
  could_not_provide : ℕ → Fed

pub record NewSecrets : Type 0 where
  pub stash : Stash
  pub calls : List (InputSlot × Str)
  pub fed : Fed

unfoldable pub ended : Batch → Fed
ended batch =
    if batch.torn
    then torn_down
    else if ltb 0 batch.missing
    then could_not_provide batch.missing
    else provided batch.sent

-- The state once the slots are taken.
unfoldable pub refresh : Map Str → Map Str → Stash → Option Str → Stash
refresh data' secrets s none = record s { pending_slots = [] }
refresh data' secrets s (some path) = record s {
  current_data = data';
  current_secrets = secrets;
  pending_slots = [];
}

unfoldable pub feed_session :
    Meets → Map Str → Map Str → Stash → Option Str → List InputSlot → NewSecrets
feed_session meets data' secrets s path [] = record { stash = s; calls = []; fed = no_pending }
feed_session meets data' secrets s none (slot ∷ pending) = record {
  stash = s;
  calls = [];
  fed = no_session;
}
feed_session meets data' secrets s (some path) (slot ∷ pending) =
    let batch = feed_slots meets data' secrets (slot ∷ pending) in
    record { stash = s; calls = batch.calls; fed = ended batch }

unfoldable pub new_secrets : {V : Type 0} → Conversions V → Meets → Settings V → Stash → NewSecrets
new_secrets ops meets connection s =
    let data' = (split_vpn ops connection).0 in
    let secrets = (split_vpn ops connection).1 in
    feed_session meets data' secrets (refresh data' secrets s s.session_path) s.session_path
      s.pending_slots

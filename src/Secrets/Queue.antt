-- ===== src/Secrets/Queue.antt =====
-- `session_fetch_input_slots`: the pending slots of the input queue of openvpn3.
use nm_openvpn.Base.{Bool, List, Option, Str, [], none, some, ℕ, ◌++◌, ◌∷◌}
use nm_openvpn.Secrets.Slots.{InputSlot}

-- The three methods of the session object; `none` is an error of the bus.
pub record InputQueue : Type 0 where
  pub get_type_group : Option (List (ℕ × ℕ))
  pub check : ℕ → ℕ → Option (List ℕ)
  pub fetch : ℕ → ℕ → ℕ → Option (Str × Str × Bool)

-- `out.push(…)`, unless the fetch has failed
unfoldable pub push_fetched :
    ℕ → ℕ → ℕ → Option (Str × Str × Bool) → List InputSlot → List InputSlot
push_fetched t g i none out = out
push_fetched t g i (some (name, descr, mask)) out =
    out
    ++ record {
      slot_type = t;
      group = g;
      id = i;
      name = name;
      description = descr;
      mask_input = mask;
    }
      ∷ []

unfoldable pub fetch_ids : InputQueue → ℕ → ℕ → List ℕ → List InputSlot → List InputSlot
fetch_ids queue t g [] out = out
fetch_ids queue t g (i ∷ ids) out =
    fetch_ids queue t g ids (push_fetched t g i (queue.fetch t g i) out)

unfoldable pub fetch_checked :
    InputQueue → ℕ → ℕ → Option (List ℕ) → List InputSlot → List InputSlot
fetch_checked queue t g none out = out
fetch_checked queue t g (some ids) out = fetch_ids queue t g ids out

unfoldable pub fetch_pairs : InputQueue → List (ℕ × ℕ) → List InputSlot → List InputSlot
fetch_pairs queue [] out = out
fetch_pairs queue ((t, g) ∷ pairs) out =
    fetch_pairs queue pairs (fetch_checked queue t g (queue.check t g) out)

unfoldable pub session_fetch_input_slots : InputQueue → Option (List InputSlot)
session_fetch_input_slots queue = elim queue.get_type_group [
  | none ↦ none
  | some pairs ↦ some (fetch_pairs queue pairs [])
]

-- ===== src/Secrets/Fetched.antt =====
-- Which slots `session_fetch_input_slots` finds.
use nm_openvpn.Base.{
  Bool, List, Option, Str, [], ap, inl, inr, none, refl, some, sym, ℕ, ◌↔◌, ◌∙◌, ◌∷◌, ◌≡◌, ◌⊎◌,
}
use mathlib.Core.Path.{subst}
use mathlib.Core.List.{Memᴰ}
use mathlib.Core.List.Memᴰ
use nm_openvpn.Secrets.Slots.{InputSlot}
use nm_openvpn.Secrets.Queue.{
  InputQueue, fetch_checked, fetch_ids, fetch_pairs, push_fetched, session_fetch_input_slots,
}

-- The slot has this pair, its number is one of these, and its description can be fetched.
pub record IsAmong (queue : InputQueue) (t g : ℕ) (ids : List ℕ) (slot : InputSlot) : Type 0 where
  pub same_type : slot.slot_type ≡ t
  pub same_group : slot.group ≡ g
  pub id_listed : Memᴰ slot.id ids
  pub described : queue.fetch t g slot.id ≡ some (slot.name, slot.description, slot.mask_input)

-- The slot is queued under one of these pairs.
pub record IsQueued (queue : InputQueue) (pairs : List (ℕ × ℕ)) (slot : InputSlot) : Type 0 where
  pub pair_type : ℕ
  pub pair_group : ℕ
  pub ids : List ℕ
  pub pair_listed : Memᴰ (pair_type, pair_group) pairs
  pub checked : queue.check pair_type pair_group ≡ some ids
  pub among : IsAmong queue pair_type pair_group ids slot

relist :
    {queue : InputQueue} {t g : ℕ} {ids ids' : List ℕ} {slot : InputSlot}
    → Memᴰ slot.id ids'
    → IsAmong queue t g ids slot
    → IsAmong queue t g ids' slot
relist m among = record {
  same_type = among.same_type;
  same_group = among.same_group;
  id_listed = m;
  described = among.described;
}

repair :
    {queue : InputQueue} {pairs pairs' : List (ℕ × ℕ)} {slot : InputSlot}
    (q : IsQueued queue pairs slot)
    → Memᴰ (q.pair_type, q.pair_group) pairs'
    → IsQueued queue pairs' slot
repair q m = record {
  pair_type = q.pair_type;
  pair_group = q.pair_group;
  ids = q.ids;
  pair_listed = m;
  checked = q.checked;
  among = q.among;
}

module _ (queue : InputQueue) (s : InputSlot) where
  -- The loops only add to what was there.
  push_keep :
      (t g i : ℕ) (r : Option (Str × Str × Bool)) (out : List InputSlot)
      → Memᴰ s out
      → Memᴰ s (push_fetched t g i r out)
  unfolding push_fetched
  push_keep t g i none out m = m
  push_keep t g i (some (name, descr, mask)) out m = Memᴰ.append_left _ m

  ids_keep :
      (t g : ℕ) (ids : List ℕ) (out : List InputSlot)
      → Memᴰ s out
      → Memᴰ s (fetch_ids queue t g ids out)
  unfolding fetch_ids
  ids_keep t g [] out m = m
  ids_keep t g (i ∷ ids) out m = ids_keep t g ids _ (push_keep t g i (queue.fetch t g i) out m)

  checked_keep :
      (t g : ℕ) (c : Option (List ℕ)) (out : List InputSlot)
      → Memᴰ s out
      → Memᴰ s (fetch_checked queue t g c out)
  unfolding fetch_checked
  checked_keep t g none out m = m
  checked_keep t g (some ids) out m = ids_keep t g ids out m

  pairs_keep :
      (pairs : List (ℕ × ℕ)) (out : List InputSlot)
      → Memᴰ s out
      → Memᴰ s (fetch_pairs queue pairs out)
  unfolding fetch_pairs
  pairs_keep [] out m = m
  pairs_keep ((t, g) ∷ pairs) out m = pairs_keep pairs _ (checked_keep t g (queue.check t g) out m)

  -- A queued slot is found.
  push_find :
      (t g i : ℕ) (out : List InputSlot)
      → s.slot_type ≡ t
      → s.group ≡ g
      → s.id ≡ i
      → queue.fetch t g s.id ≡ some (s.name, s.description, s.mask_input)
      → Memᴰ s (push_fetched t g i (queue.fetch t g i) out)
  unfolding push_fetched
  push_find t g i out same_type same_group same_id h =
      let fetched : queue.fetch t g i ≡ some (s.name, s.description, s.mask_input) =
        ap (queue.fetch t g) (sym same_id) ∙ h in
      rw fetched (
        Memᴰ.append_right out (
          Memᴰ.head (λ k. record {
            slot_type = same_type k;
            group = same_group k;
            id = same_id k;
            name = s.name;
            description = s.description;
            mask_input = s.mask_input;
          })))

  ids_find :
      (t g : ℕ) (ids : List ℕ) (out : List InputSlot)
      → IsAmong queue t g ids s
      → Memᴰ s (fetch_ids queue t g ids out)
  unfolding fetch_ids
  ids_find t g [] out among = absurd (Memᴰ.not-nil among.id_listed)
  ids_find t g (i ∷ ids) out among = elim (Memᴰ.cases_cons among.id_listed) [
    | inl e ↦
        ids_keep t g ids _ (push_find t g i out among.same_type among.same_group e among.described)
    | inr later ↦ ids_find t g ids _ (relist later among)
  ]

  pairs_find :
      (pairs : List (ℕ × ℕ)) (out : List InputSlot)
      → IsQueued queue pairs s
      → Memᴰ s (fetch_pairs queue pairs out)
  unfolding fetch_pairs fetch_checked
  pairs_find [] out q = absurd (Memᴰ.not-nil q.pair_listed)
  pairs_find ((t, g) ∷ pairs) out q = elim (Memᴰ.cases_cons q.pair_listed) [
    | inl e ↦
        let checked : queue.check t g ≡ some q.ids =
          sym (ap (λ p. queue.check p.0 p.1) e) ∙ q.checked in
        let among : IsAmong queue t g q.ids s =
          subst (λ p. IsAmong queue p.0 p.1 q.ids s) e q.among in
        pairs_keep pairs _ (rw (checked, fetch_checked) (ids_find t g q.ids out among))
    | inr later ↦ pairs_find pairs _ (repair q later)
  ]

  -- A slot that is found was there, or is queued.
  push_from :
      (t g i : ℕ) (r : Option (Str × Str × Bool)) (out : List InputSlot)
      → queue.fetch t g i ≡ r
      → Memᴰ s (push_fetched t g i r out)
      → Memᴰ s out ⊎ IsAmong queue t g (i ∷ []) s
  unfolding push_fetched
  push_from t g i none out h m = inl m
  push_from t g i (some (name, descr, mask)) out h m = elim (Memᴰ.append_cases out m) [
    | inl before ↦ inl before
    | inr new ↦
        let e = Memᴰ.eq_of_singleton new in
        inr (record {
          same_type = ap (λ x. x.slot_type) e;
          same_group = ap (λ x. x.group) e;
          id_listed = Memᴰ.head (ap (λ x. x.id) e);
          described =
              ap (λ x. queue.fetch t g x.id) e
              ∙ h
              ∙ sym (ap (λ x. some (x.name, x.description, x.mask_input)) e);
        })
  ]

  ids_from :
      (t g : ℕ) (ids : List ℕ) (out : List InputSlot)
      → Memᴰ s (fetch_ids queue t g ids out)
      → Memᴰ s out ⊎ IsAmong queue t g ids s
  unfolding fetch_ids
  ids_from t g [] out m = inl m
  ids_from t g (i ∷ ids) out m = elim (ids_from t g ids _ m) [
    | inl before ↦ elim (push_from t g i (queue.fetch t g i) out refl before) [
      | inl old ↦ inl old
      | inr a ↦ inr (relist (Memᴰ.head (Memᴰ.eq_of_singleton a.id_listed)) a)
    ]
    | inr a ↦ inr (relist (Memᴰ.tail a.id_listed) a)
  ]

  checked_from :
      (t g : ℕ) (pairs : List (ℕ × ℕ)) (c : Option (List ℕ)) (out : List InputSlot)
      → queue.check t g ≡ c
      → Memᴰ s (fetch_checked queue t g c out)
      → Memᴰ s out ⊎ IsQueued queue ((t, g) ∷ pairs) s
  unfolding fetch_checked
  checked_from t g pairs none out h m = inl m
  checked_from t g pairs (some ids) out h m = elim (ids_from t g ids out m) [
    | inl old ↦ inl old
    | inr a ↦ inr (record {
      pair_type = t;
      pair_group = g;
      ids = ids;
      pair_listed = Memᴰ.head refl;
      checked = h;
      among = a;
    })
  ]

  pairs_from :
      (pairs : List (ℕ × ℕ)) (out : List InputSlot)
      → Memᴰ s (fetch_pairs queue pairs out)
      → Memᴰ s out ⊎ IsQueued queue pairs s
  unfolding fetch_pairs
  pairs_from [] out m = inl m
  pairs_from ((t, g) ∷ pairs) out m = elim (pairs_from pairs _ m) [
    | inl before ↦ checked_from t g pairs (queue.check t g) out refl before
    | inr q ↦ inr (repair q (Memᴰ.tail q.pair_listed))
  ]

-- When openvpn3 lists its pairs, session_fetch_input_slots succeeds, and the slots that it finds are
-- exactly those that are queued: a listed pair, a number that is reported for the pair, and the
-- description that is given for both. A pair or a number that cannot be read hides no other slot.
pub fetch_input_slots-IsQueued :
    (queue : InputQueue) (pairs : List (ℕ × ℕ))
    → queue.get_type_group ≡ some pairs
    → (found : List InputSlot) × (session_fetch_input_slots queue ≡ some found)
      × ((slot : InputSlot) → Memᴰ slot found ↔ IsQueued queue pairs slot)
unfolding session_fetch_input_slots
fetch_input_slots-IsQueued queue pairs listed = (
  fetch_pairs queue pairs [],
  rw listed refl,
  λ slot. (
    λ m. elim (pairs_from queue slot pairs [] m) [
      | inl old ↦ absurd (Memᴰ.not-nil old)
      | inr q ↦ q
    ],
    pairs_find queue slot pairs [],
  ),
)

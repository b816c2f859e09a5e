-- ===== src/Secrets/Hints.antt =====
-- The auth dialog on the hints of a SecretsRequired signal.
use nm_openvpn.Base.{
  Bool, Bool-cases, List, Option, Str, [], arith, false, if◌then◌else◌, inl, inr, map, none, one_of,
  refl, some, str, str_eq, true, ◌++◌, ◌||◌, ◌∙◌, ◌∷◌, ◌≡◌,
}
use nm_openvpn.Base.Lists.{All}
use nm_openvpn.Text.{is_empty, strip_prefix}
use nm_openvpn.Base.Maps.{Map}
use nm_openvpn.Text.Laws.{one_of-elim}
use nm_openvpn.Secrets.Slots.{
  InputSlot, slot_to_vpn_key, name_to_vpn_key, key_username, key_password, key_certpass,
  key_challenge_response, key_http_proxy_username, key_http_proxy_password,
}
use nm_openvpn.Secrets.Attention.{hints_for}
use nm_openvpn.Dialog.Needs.{Files, Needed, needs, vpn_msg_tag}
use nm_openvpn.Dialog.Needs.Hints.{any_in, first_message, echo_words, Asks, needs-hints}

-- One of the slots maps to this key.
unfoldable pub any_key : Str → List InputSlot → Bool
any_key key [] = false
any_key key (slot ∷ slots) = str_eq (slot_to_vpn_key slot) key || any_key key slots

abbrev vpn_keys : List Str
vpn_keys =
    str "username"
    ∷ str "password"
    ∷ str "cert-pass"
    ∷ str "http-proxy-username"
    ∷ str "http-proxy-password"
    ∷ str "challenge-response"
    ∷ []

name_to_vpn_key_lem : (n : Str) → one_of vpn_keys (name_to_vpn_key n) ≡ true
unfolding name_to_vpn_key one_of str_eq str key_username key_password key_certpass
    key_challenge_response key_http_proxy_username key_http_proxy_password
name_to_vpn_key_lem n = ground arith

-- What holds of each of the six keys holds of the key of a slot.
key-elim {ℓ} : (P : Str → Type ℓ) → All P vpn_keys → (n : Str) → P (name_to_vpn_key n)
key-elim P ps n = one_of-elim P vpn_keys (name_to_vpn_key n) ps (name_to_vpn_key_lem n)

module _ (words : List Str) (key : Str)
    (same : All (λ k. one_of words k ≡ str_eq k key) vpn_keys) where
  any_in-keys :
      (slots : List InputSlot) → any_in words (map slot_to_vpn_key slots) ≡ any_key key slots
  unfolding any_in any_key
  any_in-keys [] = refl
  any_in-keys (slot ∷ slots) =
      rw (key-elim (λ k. one_of words k ≡ str_eq k key) same slot.name, any_in-keys slots) refl

  any_in-hints_for :
      (msg : Str) (slots : List InputSlot)
      → ((m : Str) → one_of words (str "x-vpn-message:" ++ m) ≡ false)
      → any_in words (hints_for msg slots) ≡ any_key key slots
  unfolding hints_for any_in
  any_in-hints_for msg slots no_message = elim (Bool-cases (is_empty msg)) [
    | inl e ↦ rw (e, hints_for) (any_in-keys slots)
    | inr e ↦ rw (e, hints_for, no_message msg) (any_in-keys slots)
  ]

no_words-hints_for :
    (msg : Str) (slots : List InputSlot) → any_in echo_words (hints_for msg slots) ≡ false
unfolding hints_for any_in one_of str_eq str
no_words-hints_for msg slots = elim (Bool-cases (is_empty msg)) [
  | inl e ↦ rw (e, hints_for) (go slots)
  | inr e ↦ rw (e, hints_for) (go slots)
]
  where
    go : (slots : List InputSlot) → any_in echo_words (map slot_to_vpn_key slots) ≡ false
    go [] = refl
    go (slot ∷ slots) =
        rw
          (
            key-elim (λ k. one_of echo_words k ≡ false)
                (refl, (refl, (refl, (refl, (refl, (refl, tt)))))) slot.name,
            go slots,
          )
          refl

first_message-keys : (slots : List InputSlot) → first_message (map slot_to_vpn_key slots) ≡ none
unfolding first_message str strip_prefix vpn_msg_tag
first_message-keys [] = refl
first_message-keys (slot ∷ slots) =
    rw
      (key-elim (λ k. strip_prefix vpn_msg_tag k ≡ none)
        (refl, (refl, (refl, (refl, (refl, (refl, tt)))))) slot.name)
      (first_message-keys slots)

abbrev pub message : Str → Option Str
message msg = if is_empty msg then none else some msg

first_message-hints_for :
    (msg : Str) (slots : List InputSlot) → first_message (hints_for msg slots) ≡ message msg
unfolding first_message hints_for str strip_prefix vpn_msg_tag
first_message-hints_for msg slots = elim (Bool-cases (is_empty msg)) [
  | inl e ↦ rw (e, hints_for) (first_message-keys slots)
  | inr e ↦ rw (e, hints_for) refl
]

needs-Asks :
    (fs : Files) (data' : Map Str) (msg : Str) (slot : InputSlot) (slots : List InputSlot)
    → Asks (hints_for msg (slot ∷ slots)) (needs fs data' (hints_for msg (slot ∷ slots)))
unfolding hints_for
needs-Asks fs data' msg slot slots = elim (Bool-cases (is_empty msg)) [
  | inl e ↦ rw (e, hints_for) (needs-hints fs data' _ _)
  | inr e ↦ rw (e, hints_for) (needs-hints fs data' _ _)
]

-- What the dialog should ask for, for the slots that are left.
abbrev pub needed_for : Str → List InputSlot → Needed
needed_for msg slots = record {
  password = any_key key_password slots;
  certpass = any_key key_certpass slots;
  proxypass = any_key key_http_proxy_password slots;
  challenge_response = any_key key_challenge_response slots;
  challenge_response_echo = false;
  prompt = message msg;
}

same_needed :
    {n n' : Needed}
    → n.password ≡ n'.password
    → n.certpass ≡ n'.certpass
    → n.proxypass ≡ n'.proxypass
    → n.challenge_response ≡ n'.challenge_response
    → n.challenge_response_echo ≡ n'.challenge_response_echo
    → n.prompt ≡ n'.prompt
    → n ≡ n'
same_needed {n} {n'} a b c d e f = λ i. record {
  password = a i;
  certpass = b i;
  proxypass = c i;
  challenge_response = d i;
  challenge_response_echo = e i;
  prompt = f i;
}

-- On the hints that handle_attention sends for some slots, the auth dialog needs a password, a
-- certificate password, a proxy password or a challenge response exactly if a slot maps to that
-- key, never echoes the response, and takes the message of openvpn3, if there is one, as its prompt.
pub needs-hints_for :
    (fs : Files) (data' : Map Str) (msg : Str) (slot : InputSlot) (slots : List InputSlot)
    → needs fs data' (hints_for msg (slot ∷ slots)) ≡ needed_for msg (slot ∷ slots)
unfolding one_of str_eq str key_password key_certpass key_http_proxy_password key_challenge_response
needs-hints_for fs data' msg slot slots =
    let (password, certpass, proxypass, response, echo, prompt) =
      needs-Asks fs data' msg slot slots in
    same_needed
      (password
        ∙ any_in-hints_for _ _ (refl, (refl, (refl, (refl, (refl, (refl, tt)))))) msg (slot ∷ slots)
            (λ m. refl))
      (certpass
        ∙ any_in-hints_for _ _ (refl, (refl, (refl, (refl, (refl, (refl, tt)))))) msg (slot ∷ slots)
            (λ m. refl))
      (proxypass
        ∙ any_in-hints_for _ _ (refl, (refl, (refl, (refl, (refl, (refl, tt)))))) msg (slot ∷ slots)
            (λ m. refl))
      (response
        ∙ any_in-hints_for _ _ (refl, (refl, (refl, (refl, (refl, (refl, tt)))))) msg (slot ∷ slots)
            (λ m. refl))
      (echo ∙ no_words-hints_for msg (slot ∷ slots))
      (prompt ∙ first_message-hints_for msg (slot ∷ slots))

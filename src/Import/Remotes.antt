-- ===== src/Import/Remotes.antt =====
-- The entry that an import makes of a `remote` is split again by the exporter and by the service.
use nm_openvpn.Base.{
  Bool, Bool-cases, List, Option, Str, [], ap, append-nil, append_assoc, arith, false, inl, inr,
  none, refl, some, suc, true, ℕ, ◌++◌, ◌==◌, ◌∙◌, ◌∷◌, ◌≡◌,
}
use nm_openvpn.Text.{
  any_char, cut_n, cut_once, is_empty, split_once, splitn, starts_with, strip_prefix,
}
use nm_openvpn.Text.Laws.{or-false}
use nm_openvpn.Profile.Values.{
  arg_is_set, first_set, second_set, host_of, rest_of, parse_bare, parse_tail, parse_bracketed,
  parse_remote,
}
use nm_openvpn.Export.Blocks.{split_remote}
use nm_openvpn.Ovpn.Defs.{first, second}
use nm_openvpn.Import.Arms.{remote_host, remote_tail, remote_entry, third, text_or}

abbrev pub holds : ℕ → Str → Bool
holds sep s = any_char (λ c. c == sep) s

cut_n_part :
    (n sep : ℕ) (w rest cur : Str)
    → holds sep w ≡ false
    → cut_n (suc (suc n)) sep (w ++ sep ∷ rest) cur ≡ (cur ++ w) ∷ cut_n (suc n) sep rest []
unfolding cut_n any_char
cut_n_part n sep [] rest cur h = rw (same sep, cut_n, append-nil) refl
  where
    same : (c : ℕ) → (c == c) ≡ true
    same c = ground arith
cut_n_part n sep (c ∷ w) rest cur h =
    let (here, there) = or-false (c == sep) _ h in
    rw (here, cut_n) (cut_n_part n sep w rest (cur ++ c ∷ []) there ∙ rw append_assoc refl)

cut_n_end :
    (n sep : ℕ) (w cur : Str)
    → holds sep w ≡ false
    → cut_n (suc (suc n)) sep w cur ≡ (cur ++ w) ∷ []
unfolding cut_n any_char
cut_n_end n sep [] cur h = rw append-nil refl
cut_n_end n sep (c ∷ w) cur h =
    let (here, there) = or-false (c == sep) _ h in
    rw (here, cut_n) (cut_n_end n sep w (cur ++ c ∷ []) there ∙ rw append_assoc refl)

cut_once_part :
    (sep : ℕ) (w rest cur : Str)
    → holds sep w ≡ false
    → cut_once sep (w ++ sep ∷ rest) cur ≡ some (cur ++ w, rest)
unfolding cut_once any_char
cut_once_part sep [] rest cur h = rw (same sep, cut_once, append-nil) refl
  where
    same : (c : ℕ) → (c == c) ≡ true
    same c = ground arith
cut_once_part sep (c ∷ w) rest cur h =
    let (here, there) = or-false (c == sep) _ h in
    rw (here, cut_once) (cut_once_part sep w rest (cur ++ c ∷ []) there ∙ rw append_assoc refl)

-- What is set of a part: it is none, or not empty and without a colon.
abbrev pub IsPart : Option Str → Type 0
IsPart none = Unit
IsPart (some s) = (is_empty s ≡ false) × (holds b':' s ≡ false)

-- The parts behind the host; a protocol comes with a port.
abbrev pub ArePorts : Option Str → Option Str → Type 0
ArePorts none none = Unit
ArePorts none (some proto) = ⊥
ArePorts (some port) proto = IsPart (some port) × IsPart proto

abbrev pub args_of : Str → Option Str → Option Str → List Str
args_of host none proto = host ∷ []
args_of host (some port) none = host ∷ port ∷ []
args_of host (some port) (some proto) = host ∷ port ∷ proto ∷ []

-- A host without the brackets and the comma-like characters of an entry.
pub record IsHost (host : Str) : Type 0 where
  pub unbracketed : starts_with (b'[' ∷ []) host ≡ false
  pub unclosed : holds b']' host ≡ false

set_lem : (s : Str) → is_empty s ≡ false → arg_is_set (some s) ≡ some s
unfolding arg_is_set is_empty
set_lem [] h = ground arith
set_lem (c ∷ s) h = refl

parse_tail_lem :
    (host : Str) (port proto : Option Str)
    → ArePorts port proto
    → parse_tail (host, remote_tail port proto) ≡ (host, port, proto)
unfolding parse_tail remote_tail strip_prefix splitn first_set second_set cut_n arg_is_set
parse_tail_lem host none none h = refl
parse_tail_lem host none (some proto) h = absurd h
parse_tail_lem host (some port) none ((some_port, plain), h) =
    rw (cut_n_end 0 b':' port [] plain, first_set, second_set, set_lem port some_port) refl
parse_tail_lem host (some port) (some proto) ((some_port, plain), (some_proto, _)) =
    rw
      (
        cut_n_part 0 b':' port proto [] plain,
        first_set,
        second_set,
        set_lem port some_port,
        set_lem proto some_proto,
      )
      refl

parse_bare_lem :
    (host : Str) (port proto : Option Str)
    → holds b':' host ≡ false
    → ArePorts port proto
    → parse_bare (host ++ remote_tail port proto) ≡ (host, port, proto)
unfolding parse_bare remote_tail splitn first_set second_set host_of rest_of cut_n
parse_bare_lem host none none k h = rw (append-nil, cut_n_end 1 b':' host [] k) refl
parse_bare_lem host none (some proto) k h = absurd h
parse_bare_lem host (some port) none k ((some_port, plain), h) =
    rw
      (
        cut_n_part 1 b':' host port [] k,
        cut_n_end 0 b':' port [] plain,
        first_set,
        second_set,
        set_lem port some_port,
      )
      refl
parse_bare_lem host (some port) (some proto) k ((some_port, plain), (some_proto, _)) =
    rw
      (
        cut_n_part 1 b':' host (port ++ b':' ∷ proto) [] k,
        cut_n_part 0 b':' port proto [] plain,
        set_lem port some_port,
        set_lem proto some_proto,
      )
      refl

strip_bare :
    (host : Str) (port proto : Option Str)
    → starts_with (b'[' ∷ []) host ≡ false
    → strip_prefix (b'[' ∷ []) (host ++ remote_tail port proto) ≡ none
unfolding strip_prefix starts_with remote_tail
strip_bare [] none none h = refl
strip_bare [] (some port) none h = refl
strip_bare [] none (some proto) h = refl
strip_bare [] (some port) (some proto) h = refl
strip_bare (c ∷ host) port proto h = ground arith

entry_lem :
    (host : Str) (port proto : Option Str)
    → ArePorts port proto
    → remote_entry (args_of host port proto) ≡ remote_host host ++ remote_tail port proto
unfolding remote_entry first second third text_or
entry_lem host none none h = refl
entry_lem host none (some proto) h = absurd h
entry_lem host (some port) none h = refl
entry_lem host (some port) (some proto) h = refl

split_entry :
    (host : Str) (port proto : Option Str)
    → IsHost host
    → ArePorts port proto
    → split_remote (remote_host host ++ remote_tail port proto) ≡ (host, port, proto)
unfolding split_remote remote_host parse_bracketed split_once strip_prefix
split_entry host port proto h k = elim (Bool-cases (holds b':' host)) [
  | inl e ↦
      rw
        (
          e,
          h.unbracketed,
          remote_host,
          append_assoc,
          cut_once_part b']' host (remote_tail port proto) [] h.unclosed,
        )
        (parse_tail_lem host port proto k)
  | inr e ↦
      rw (e, remote_host, strip_bare host port proto h.unbracketed)
        (parse_bare_lem host port proto e k)
]

-- A remote that is imported, with a host that has no brackets, IPv6 literals included, and a port
-- and a protocol that are not empty and have no colon, is split by the exporter into the same host,
-- port and protocol; and the service splits every entry as the exporter does.
pub split_remote-remote_entry :
    (host : Str) (port proto : Option Str)
    → IsHost host
    → ArePorts port proto
    → (split_remote (remote_entry (args_of host port proto)) ≡ (host, port, proto))
      × (parse_remote (remote_entry (args_of host port proto)) ≡ (host, port, proto))
unfolding parse_remote split_remote
split_remote-remote_entry host port proto h k =
    let same = ap split_remote (entry_lem host port proto k) ∙ split_entry host port proto h k in
    (same, same)

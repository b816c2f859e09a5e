-- ===== src/Secrets/Agree.antt =====
-- The two readers of the settings, `vpn_data` and `split_vpn`.
use mathlib.Core.Bool.{true≢false}
use nm_openvpn.Base.{
  Bool, List, Option, Option-cases, Str, [], ap, false, inl, inr, none, refl, some, str, sym, true,
  ◌∷◌, ◌≡◌,
}
use nm_openvpn.Base.Maps.{Map, insert, empty}
use nm_openvpn.Secrets.Settings.{
  Conversions, Settings, SettingsError, Read, failed, read, insert_str, flatten_entries,
  flatten_dict, flatten_str_map, flatten_clone, sub_dict, split_group, split_vpn, strict_str,
  strict_entries, strict_dict, string_string_dict, data_of, data_of_group, vpn_data,
}

read-failed : {A : Type 0} (e : SettingsError) (a : A) → failed e ≡ read a → ⊥
read-failed {A} e a h = true≢false (sym (ap is_read h))
  where
    is_read : Read A → Bool
    is_read (failed e) = false
    is_read (read a) = true

read-read : {A : Type 0} (a b : A) → read a ≡ read b → a ≡ b
read-read {A} a b h = ap (value) h
  where
    value : Read A → A
    value (failed e) = a
    value (read c) = c

module _ {V : Type 0} (ops : Conversions V) where
  flatten-strict :
      (entries : List (Str × V)) (out m : Map Str)
      → strict_entries ops entries out ≡ read m
      → flatten_entries ops entries out ≡ m
  unfolding strict_entries flatten_entries strict_str insert_str
  flatten-strict [] out m h = read-read out m h
  flatten-strict ((k, v) ∷ entries) out m h = elim (Option-cases (ops.to_str v)) [
    | inl g ↦ absurd (read-failed _ m (rw (g, strict_str) at h))
    | inr (s, g) ↦
        rw (g, insert_str) (flatten-strict entries (insert k s out) m (rw (g, strict_str) at h))
  ]

  flatten_dict-strict :
      (d : Option (List (Str × V))) (m : Map Str)
      → strict_dict ops d ≡ read m
      → flatten_dict ops d ≡ some m
  unfolding strict_dict flatten_dict
  flatten_dict-strict none m h = absurd (read-failed _ m h)
  flatten_dict-strict (some entries) m h = ap some (flatten-strict entries empty m h)

  flatten_str_map-read :
      (v : V) (m : Map Str) → string_string_dict ops v ≡ read m → flatten_str_map ops v ≡ some m
  unfolding string_string_dict flatten_str_map
  flatten_str_map-read v m h = elim (Option-cases (ops.to_str_map v)) [
    | inl g ↦
        rw (g, flatten_str_map)
          (flatten_dict-strict (ops.to_dict v) m (rw (g, string_string_dict) at h))
    | inr (n, g) ↦
        rw (g, flatten_str_map) (ap some (read-read n m (rw (g, string_string_dict) at h)))
  ]

  sub_dict-read :
      (cloned : (v : V) → ops.try_clone v ≡ some v) (raw : Option V) (m : Map Str)
      → data_of ops raw ≡ read m
      → sub_dict ops raw ≡ m
  unfolding data_of sub_dict flatten_clone
  sub_dict-read cloned none m h = absurd (read-failed _ m h)
  sub_dict-read cloned (some v) m h = rw (cloned v, sub_dict, flatten_str_map-read v m h) refl

  split_group-read :
      (cloned : (v : V) → ops.try_clone v ≡ some v) (vpn : Option (Map V)) (m : Map Str)
      → data_of_group ops vpn ≡ read m
      → (split_group ops vpn).0 ≡ m
  unfolding data_of_group split_group
  split_group-read cloned none m h = absurd (read-failed _ m h)
  split_group-read cloned (some vpn) m h = sub_dict-read cloned (vpn (str "data")) m h

-- Where vpn_data reads the settings of a connection, split_vpn finds the same vpn.data, if D-Bus
-- values can be cloned; so the values that are provided later come from the data that the profile
-- was built from.
pub split_vpn-vpn_data :
    {V : Type 0} (ops : Conversions V) (settings : Settings V) (m : Map Str)
    → ((v : V) → ops.try_clone v ≡ some v)
    → vpn_data ops settings ≡ read m
    → (split_vpn ops settings).0 ≡ m
unfolding split_vpn vpn_data
split_vpn-vpn_data ops settings m cloned h = split_group-read ops cloned (settings (str "vpn")) m h

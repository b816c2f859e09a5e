-- ===== src/Import/Single.antt =====
-- Options that one setting stands for: the import keeps the last of them.
use nm_openvpn.Base.{
  Bool-cases, List, Option, Option-cases, Str, [], ap, arith, false, if◌then◌else◌, inl, inr, map,
  none, one_of, refl, some, str, str_eq, str_eq_iff, sym, true, ◌∙◌, ◌∷◌, ◌≡◌,
}
use nm_openvpn.Base.Lists.{All}
use nm_openvpn.Base.Maps.{Map, insert_self, insert_ne}
use nm_openvpn.Ovpn.Defs.{Directive, OvpnConfig, blob, first, option}
use nm_openvpn.Import.Arms.{arm_among, arm_of, arms, insert_some, value}
use nm_openvpn.Import.ByName.{arm-elim, unlisted}
use nm_openvpn.Import.Build.{
  Import, as_nm_data, import_all, import_blob, import_directive, import_option, later, nothing_read,
  or_insert, put, resolve_direction,
}
use nm_openvpn.Import.Writes.{writes, put-Same}

-- What the last option of this name gives that gives something.
unfoldable pub pick_of : (List Str → Option Str) → Str → Directive → Option Str
pick_of pick name (option n args) = if str_eq n name then pick args else none
pick_of pick name (blob n body) = none

unfoldable pub last_of : (List Str → Option Str) → Str → List Directive → Option Str
last_of pick name [] = none
last_of pick name (d ∷ ds) = later (last_of pick name ds) (pick_of pick name d)

abbrev pub last_arg : Str → List Directive → Option Str
last_arg = last_of first

-- Options with one argument, whose setting no other option writes, and that setting.
abbrev pub plain_options : List (Str × Str)
plain_options =
    (str "dev", str "dev")
    ∷ (str "dev-type", str "dev-type")
    ∷ (str "port", str "port")
    ∷ (str "cipher", str "cipher")
    ∷ (str "data-ciphers", str "data-ciphers")
    ∷ (str "data-ciphers-fallback", str "data-ciphers-fallback")
    ∷ (str "auth", str "auth")
    ∷ (str "keysize", str "keysize")
    ∷ (str "tls-cipher", str "tls-cipher")
    ∷ (str "tun-mtu", str "tunnel-mtu")
    ∷ (str "fragment", str "fragment-size")
    ∷ (str "ping-exit", str "ping-exit")
    ∷ (str "reneg-sec", str "reneg-seconds")
    ∷ (str "allow-compression", str "allow-compression")
    ∷ (str "ns-cert-type", str "ns-cert-type")
    ∷ (str "remote-cert-tls", str "remote-cert-tls")
    ∷ (str "tls-remote", str "tls-remote")
    ∷ (str "tls-version-max", str "tls-version-max")
    ∷ (str "tls-crypt", str "tls-crypt")
    ∷ (str "tls-crypt-v2", str "tls-crypt-v2")
    ∷ (str "extra-certs", str "extra-certs")
    ∷ []

abbrev names : List Str
names = map (λ na. na.0) arms

abbrev late_keys : List Str
late_keys = str "connection-type" ∷ str "ta-dir" ∷ str "static-key-direction" ∷ []

-- Of all arms only that of this name writes the key.
abbrev pub Owns : Str → Str → Type 0
Owns name key =
    (one_of names name ≡ true) × All (λ na. one_of (writes na.1) key ≡ str_eq na.0 name) arms

-- The arm is a plain one, and nothing writes the key after the loop.
abbrev pub IsSingle : Str × Str → Type 0
IsSingle (name, key) = (arm_of name ≡ value key) × (one_of late_keys key ≡ false) × Owns name key

plain_options-IsSingle : All IsSingle plain_options
unfolding arm_of arm_among arms writes one_of str_eq str
plain_options-IsSingle = assumption refl

pub insert_some_self :
    (key : Str) (o : Option Str) (d : Map Str) → insert_some key o d key ≡ later o (d key)
unfolding insert_some later
insert_some_self key none d = refl
insert_some_self key (some v) d = insert_self key v d

pub later_assoc : (a b c : Option Str) → later a (later b c) ≡ later (later a b) c
unfolding later
later_assoc none b c = refl
later_assoc (some v) b c = refl

pub later-none : (a : Option Str) → later a none ≡ a
unfolding later
later-none none = refl
later-none (some v) = refl

import_blob_data : (n : Str) (s : Import) → (import_blob n s).data' ≡ s.data'
unfolding import_blob
import_blob_data n s = ground arith

pub or_insert_ne : (k v j : Str) (d : Map Str) → str_eq j k ≡ false → or_insert k v d j ≡ d j
unfolding or_insert
or_insert_ne k v j d h = elim (Option-cases (d k)) [
  | inl e ↦ rw (e, or_insert) (insert_ne k j v d h)
  | inr (w, e) ↦ rw (e, or_insert) refl
]

resolve_ne :
    (o : Option Str) (s : Import) (j : Str)
    → str_eq j (str "ta-dir") ≡ false
    → str_eq j (str "static-key-direction") ≡ false
    → resolve_direction o s j ≡ s.data' j
unfolding resolve_direction
resolve_ne none s j h k = refl
resolve_ne (some dir) s j h k = elim (Bool-cases s.have_tls_auth) [
  | inl e ↦ rw (e, resolve_direction) (or_insert_ne _ dir j s.data' h)
  | inr e ↦ elim (Bool-cases s.have_secret) [
    | inl f ↦ rw (e, f, resolve_direction) (or_insert_ne _ dir j s.data' k)
    | inr f ↦ rw (e, f, resolve_direction) refl
  ]
]

module _ (name key : Str) (owns : Owns name key) where
  writes_iff : (n : Str) → one_of (writes (arm_of n)) key ≡ str_eq n name
  unfolding writes one_of
  writes_iff n =
      arm-elim (λ n a. one_of (writes a) key ≡ str_eq n name) n owns.1
        (λ h. sym (alone (unlisted names (name ∷ []) n (owns.0, tt) h)))
    where
      alone : one_of (name ∷ []) n ≡ false → str_eq n name ≡ false
      alone h = ground arith

  module _ (pick : List Str → Option Str)
      (put_self : (args : List Str) (d : Map Str)
        → put (arm_of name) args d key ≡ later (pick args) (d key)) where
    put_key :
        (n : Str) (args : List Str) (d : Map Str)
        → put (arm_of n) args d key ≡ later (if str_eq n name then pick args else none) (d key)
    unfolding put later
    put_key n args d = elim (Bool-cases (str_eq n name)) [
      | inl e ↦ rw (e, (str_eq_iff n name).0 e) (put_self args d)
      | inr e ↦ rw e (put-Same (arm_of n) args d key (writes_iff n ∙ e))
    ]

    directive_key :
        (d : Directive) (s : Import)
        → (import_directive d s).data' key ≡ later (pick_of pick name d) (s.data' key)
    unfolding import_directive import_option pick_of later
    directive_key (option n args) s = put_key n args s.data'
    directive_key (blob n body) s = ap (λ m. m key) (import_blob_data n s)

    all_key :
        (ds : List Directive) (s : Import)
        → (import_all ds s).data' key ≡ later (last_of pick name ds) (s.data' key)
    unfolding import_all last_of later
    all_key [] s = refl
    all_key (d ∷ ds) s =
        all_key ds (import_directive d s)
        ∙ rw (directive_key d s) (later_assoc (last_of pick name ds) _ _)

    pub imported_key :
        (ds : List Directive) → (import_all ds nothing_read).data' key ≡ last_of pick name ds
    unfolding nothing_read
    imported_key ds = all_key ds nothing_read ∙ later-none _

pub plain_key :
    (name key : Str)
    → IsSingle (name, key)
    → (config : OvpnConfig) → as_nm_data config key ≡ last_arg name config.directives
unfolding as_nm_data one_of put
plain_key name key (plain, single, owns) config =
    let (a, b, c) = late single in
    insert_ne (str "connection-type") key _ _ a
    ∙ resolve_ne _ _ key b c
    ∙ imported_key name key owns first
        (λ args d. rw (plain, put) (insert_some_self key (first args) d)) config.directives
  where
    late :
        one_of late_keys key ≡ false
        → (str_eq key (str "connection-type") ≡ false)
          × (str_eq key (str "ta-dir") ≡ false)
          × (str_eq key (str "static-key-direction") ≡ false)
    late h = ground arith

-- Whatever stands around them, the import keeps, for each of these options, the first argument of
-- the last one that has an argument, under the setting's key, and has no such setting without one.
pub as_nm_data-last_arg :
    (config : OvpnConfig)
    → All (λ nk. as_nm_data config nk.1 ≡ last_arg nk.0 config.directives) plain_options
as_nm_data-last_arg config = every plain_options plain_options-IsSingle
  where
    every :
        (l : List (Str × Str))
        → All IsSingle l
        → All (λ nk. as_nm_data config nk.1 ≡ last_arg nk.0 config.directives) l
    every [] h = tt
    every ((name, key) ∷ l) (h, hs) = (plain_key name key h config, every l hs)

-- ===== src/Import/Direction.antt =====
-- The direction of a `tls-auth` key.
use nm_openvpn.Base.{
  Bool, Bool-cases, List, Option, Option-cases, Str, [], ap, arith, false, if◌then◌else◌, inl, inr,
  map, none, one_of, refl, some, str, str_eq, sym, true, ◌∙◌, ◌∷◌, ◌≡◌,
}
use nm_openvpn.Base.Lists.{All}
use nm_openvpn.Import.Single.{
  Owns, imported_key, insert_some_self, last_arg, last_of, later_assoc, later-none, or_insert_ne,
  pick_of,
}
use nm_openvpn.Base.Maps.{Map, insert, insert_self, insert_ne}
use nm_openvpn.Ovpn.Defs.{Directive, OvpnConfig, blob, first, option, second}
use nm_openvpn.Import.Arms.{Arm, arms, arm_among, arm_of, insert_some}
use nm_openvpn.Import.ByName.{arm-elim, unlisted}
use nm_openvpn.Import.Build.{
  Import, as_nm_data, import_all, import_blob, import_directive, import_option, later, note_arm,
  nothing_read, or_insert, put, resolve_direction,
}
use nm_openvpn.Import.Writes.{writes}
use nm_openvpn.Import.Contype.{any_gives, noted}

-- There is an option `tls-auth`.
abbrev pub has_tls_auth : List Directive → Bool
has_tls_auth = any_gives (str "tls-auth" ∷ []) true []

tls_auth-given :
    (ds : List Directive) → (import_all ds nothing_read).have_tls_auth ≡ has_tls_auth ds
unfolding nothing_read note_arm one_of str_eq str arms import_blob
tls_auth-given ds =
    noted (λ s. s.have_tls_auth) (str "tls-auth" ∷ []) true [] (assumption refl)
      (λ n h args s d. rw h refl) (assumption refl) (assumption refl) (assumption refl) ds
      nothing_read refl

abbrev Directs : Str → Arm → Type 0
Directs n a =
    (args : List Str) (s : Import)
    → (note_arm a args s).direction
      ≡ later (if str_eq n (str "key-direction") then first args else none) s.direction

directions : All (λ na. Directs na.0 na.1) arms
unfolding note_arm str_eq str arms later
directions = assumption refl

option_Directs : (n : Str) → Directs n (arm_of n)
unfolding note_arm later one_of
option_Directs n =
    arm-elim Directs n directions
      (λ h args s. rw (alone (unlisted names (str "key-direction" ∷ []) n listed h)) refl)
  where
    names : List Str
    names = map (λ na. na.0) arms

    listed : All (λ w. one_of names w ≡ true) (str "key-direction" ∷ [])
    listed = unfold arms one_of str_eq str in (refl, tt)

    alone : one_of (str "key-direction" ∷ []) n ≡ false → str_eq n (str "key-direction") ≡ false
    alone h = ground arith

blob_direction : (n : Str) (s : Import) → (import_blob n s).direction ≡ s.direction
unfolding import_blob
blob_direction n s = ground arith

directive_direction :
    (d : Directive) (s : Import)
    → (import_directive d s).direction ≡ later (pick_of first (str "key-direction") d) s.direction
unfolding import_directive import_option pick_of later
directive_direction (option n args) s = option_Directs n args s
directive_direction (blob n body) s = blob_direction n s

all_direction :
    (ds : List Directive) (s : Import)
    → (import_all ds s).direction ≡ later (last_arg (str "key-direction") ds) s.direction
unfolding import_all last_of later
all_direction [] s = refl
all_direction (d ∷ ds) s =
    all_direction ds (import_directive d s)
    ∙ rw (directive_direction d s) (later_assoc (last_arg (str "key-direction") ds) _ _)

read_direction :
    (ds : List Directive)
    → (import_all ds nothing_read).direction ≡ last_arg (str "key-direction") ds
unfolding nothing_read
read_direction ds = all_direction ds nothing_read ∙ later-none _

ta_dir-Owns : Owns (str "tls-auth") (str "ta-dir")
unfolding arm_of arm_among arms writes one_of str_eq str
ta_dir-Owns = assumption refl

ta_dir_put :
    (args : List Str) (d : Map Str)
    → put (arm_of (str "tls-auth")) args d (str "ta-dir") ≡ later (second args) (d (str "ta-dir"))
unfolding put arm_of arm_among arms str_eq str
ta_dir_put args d =
    insert_some_self (str "ta-dir") (second args) _
    ∙ ap (later (second args)) (insert_some_ne (first args) d)
  where
    insert_some_ne :
        (o : Option Str) (d : Map Str)
        → insert_some (str "ta") o d (str "ta-dir") ≡ d (str "ta-dir")
    insert_some_ne none d = unfold insert_some in refl
    insert_some_ne (some v) d = unfold insert_some insert in refl

read_ta_dir :
    (ds : List Directive)
    → (import_all ds nothing_read).data' (str "ta-dir") ≡ last_of second (str "tls-auth") ds
read_ta_dir ds = imported_key (str "tls-auth") (str "ta-dir") ta_dir-Owns second ta_dir_put ds

or_insert_self : (k v : Str) (d : Map Str) → or_insert k v d k ≡ later (d k) (some v)
unfolding or_insert later
or_insert_self k v d = elim (Option-cases (d k)) [
  | inl e ↦ rw (e, or_insert) (insert_self k v d)
  | inr (w, e) ↦ rw (e, or_insert, e) refl
]

or_insert_other :
    (v : Str) (d : Map Str)
    → or_insert (str "static-key-direction") v d (str "ta-dir") ≡ d (str "ta-dir")
unfolding str str_eq
or_insert_other v d = or_insert_ne (str "static-key-direction") v (str "ta-dir") d refl

resolved :
    (o : Option Str) (s : Import)
    → resolve_direction o s (str "ta-dir")
      ≡ later (s.data' (str "ta-dir")) (if s.have_tls_auth then o else none)
unfolding resolve_direction later
resolved none s = sym (if-none s.have_tls_auth)
  where
    if-none :
        (b : Bool)
        → later (s.data' (str "ta-dir")) (if b then none else none) ≡ s.data' (str "ta-dir")
    if-none true = later-none _
    if-none false = later-none _
resolved (some dir) s = elim (Bool-cases s.have_tls_auth) [
  | inl e ↦ rw (e, resolve_direction) (or_insert_self (str "ta-dir") dir s.data')
  | inr e ↦ elim (Bool-cases s.have_secret) [
    | inl f ↦ rw (e, f, resolve_direction) (or_insert_other dir s.data' ∙ sym (later-none _))
    | inr f ↦ rw (e, f, resolve_direction) (sym (later-none _))
  ]
]

-- The direction of a tls-auth key is the second argument of the last option tls-auth that has one,
-- or else the last key-direction, if there is an option tls-auth. A key that is given inline as a
-- blob is no such option, so a key-direction beside it is lost.
pub as_nm_data-ta_dir :
    (config : OvpnConfig)
    → as_nm_data config (str "ta-dir")
      ≡ later (last_of second (str "tls-auth") config.directives) (
          if has_tls_auth config.directives
          then last_arg (str "key-direction") config.directives
          else none)
unfolding as_nm_data str_eq str
as_nm_data-ta_dir config =
    let ds = config.directives in
    insert_ne (str "connection-type") (str "ta-dir") _ _ refl
    ∙ resolved _ (import_all ds nothing_read)
    ∙ rw (read_ta_dir ds, tls_auth-given ds, read_direction ds) refl

-- ===== src/Import/Contype.antt =====
-- The connection type of an import.
use nm_openvpn.Base.{
  Bool, Bool-cases, List, Str, [], arith, false, if◌then◌else◌, inl, inr, map, one_of, refl, some,
  str, str_eq, true, ◌&&◌, ◌||◌, ◌∙◌, ◌∷◌, ◌≡◌,
}
use nm_openvpn.Base.Lists.{All}
use nm_openvpn.Ovpn.Defs.{Directive, OvpnConfig, blob, first, option}
use nm_openvpn.Import.Build.{
  as_nm_data, contype_of, Import, is_given, note_arm, import_option, import_blob, import_directive,
  import_all, nothing_read,
}
use nm_openvpn.Base.Maps.{insert_self, Map}
use nm_openvpn.Text.Laws.{one_of-elim}
use nm_openvpn.Import.Arms.{arms}
use nm_openvpn.Import.ByName.{arm-elim, unlisted}

-- The directive gives this part of the credentials: one of these options, with an argument if it
-- needs one, or a blob of one of these names.
unfoldable pub gives : List Str → Bool → List Str → Directive → Bool
gives options bare blobs (option n args) = one_of options n && (bare || is_given (first args))
gives options bare blobs (blob n body) = one_of blobs n

unfoldable pub any_gives : List Str → Bool → List Str → List Directive → Bool
any_gives options bare blobs [] = false
any_gives options bare blobs (d ∷ ds) =
    any_gives options bare blobs ds || gives options bare blobs d

or_shift : (a b c : Bool) → (a || (b || c)) ≡ ((a || b) || c)
or_shift a b c = ground arith

or_nothing : (a : Bool) → (a || false) ≡ a
or_nothing a = ground arith

abbrev names : List Str
names = map (λ na. na.0) arms

abbrev blob_names : List Str
blob_names = str "ca" ∷ str "cert" ∷ str "key" ∷ str "secret" ∷ []

other_blob : (n : Str) (s : Import) → one_of blob_names n ≡ false → import_blob n s ≡ s
unfolding import_blob one_of
other_blob n s h = ground arith

module _ (field : Import → Bool) (options : List Str) (bare : Bool) (blobs : List Str)
    (table : All
      (λ na.
        (args : List Str) (s : Import) (d : Map Str)
        → field (record (note_arm na.1 args s) { data' = d })
          ≡ ((one_of options na.0 && (bare || is_given (first args))) || field s))
      arms)
    (other : (n : Str)
      → one_of options n ≡ false
      → (args : List Str) (s : Import) (d : Map Str)
      → field (record s { data' = d })
        ≡ ((one_of options n && (bare || is_given (first args))) || field s))
    (listed : All (λ w. one_of names w ≡ true) options)
    (blob_table : All
      (λ n. (s : Import) → field (import_blob n s) ≡ (one_of blobs n || field s))
      blob_names)
    (blob_listed : All (λ w. one_of blob_names w ≡ true) blobs) where
  blob_field : (n : Str) (s : Import) → field (import_blob n s) ≡ (one_of blobs n || field s)
  blob_field n s = elim (Bool-cases (one_of blob_names n)) [
    | inl e ↦
        one_of-elim (λ n. (s : Import) → field (import_blob n s) ≡ (one_of blobs n || field s))
          blob_names n blob_table e s
    | inr e ↦ rw (other_blob n s e, unlisted blob_names blobs n blob_listed e) refl
  ]

  import_directive-gives :
      (d : Directive) (s : Import)
      → field (import_directive d s) ≡ (gives options bare blobs d || field s)
  unfolding import_directive import_option gives note_arm
  import_directive-gives (option n args) s =
      arm-elim
        (λ n a.
          (args : List Str) (s : Import) (d : Map Str)
          → field (record (note_arm a args s) { data' = d })
            ≡ ((one_of options n && (bare || is_given (first args))) || field s))
        n table (λ h. other n (unlisted names options n listed h)) args s _
  import_directive-gives (blob n body) s = blob_field n s

  import_all-gives :
      (ds : List Directive) (s : Import)
      → field (import_all ds s) ≡ (any_gives options bare blobs ds || field s)
  unfolding import_all any_gives
  import_all-gives [] s = refl
  import_all-gives (d ∷ ds) s =
      import_all-gives ds (import_directive d s)
      ∙ rw (import_directive-gives d s) (or_shift (any_gives options bare blobs ds) _ _)

  pub noted :
      (ds : List Directive) (s : Import)
      → field s ≡ false
      → field (import_all ds s) ≡ any_gives options bare blobs ds
  noted ds s h = import_all-gives ds s ∙ rw h (or_nothing (any_gives options bare blobs ds))

abbrev pub has_secret : List Directive → Bool
has_secret = any_gives (str "secret" ∷ []) false (str "secret" ∷ [])

abbrev pub has_cert : List Directive → Bool
has_cert = any_gives (str "cert" ∷ str "pkcs12" ∷ []) false (str "cert" ∷ [])

abbrev pub has_key : List Directive → Bool
has_key = any_gives (str "key" ∷ str "pkcs12" ∷ []) false (str "key" ∷ [])

abbrev pub has_password : List Directive → Bool
has_password = any_gives (str "auth-user-pass" ∷ []) true []

secret-given : (ds : List Directive) → (import_all ds nothing_read).have_secret ≡ has_secret ds
unfolding nothing_read note_arm one_of str_eq str arms import_blob
secret-given ds =
    noted (λ s. s.have_secret) (str "secret" ∷ []) false (str "secret" ∷ []) (assumption refl)
      (λ n h args s d. rw h refl) (assumption refl) (assumption refl) (assumption refl) ds
      nothing_read refl

cert-given : (ds : List Directive) → (import_all ds nothing_read).have_cert ≡ has_cert ds
unfolding nothing_read note_arm one_of str_eq str arms import_blob
cert-given ds =
    noted (λ s. s.have_cert) (str "cert" ∷ str "pkcs12" ∷ []) false (str "cert" ∷ [])
      (assumption refl) (λ n h args s d. rw h refl) (assumption refl) (assumption refl)
      (assumption refl) ds nothing_read refl

key-given : (ds : List Directive) → (import_all ds nothing_read).have_key ≡ has_key ds
unfolding nothing_read note_arm one_of str_eq str arms import_blob
key-given ds =
    noted (λ s. s.have_key) (str "key" ∷ str "pkcs12" ∷ []) false (str "key" ∷ []) (assumption refl)
      (λ n h args s d. rw h refl) (assumption refl) (assumption refl) (assumption refl) ds
      nothing_read refl

password-given :
    (ds : List Directive) → (import_all ds nothing_read).have_auth_user_pass ≡ has_password ds
unfolding nothing_read note_arm one_of str_eq str arms import_blob
password-given ds =
    noted (λ s. s.have_auth_user_pass) (str "auth-user-pass" ∷ []) true ([]) (assumption refl)
      (λ n h args s d. rw h refl) (assumption refl) (assumption refl) (assumption refl) ds
      nothing_read refl

-- The connection type for what is counted.
abbrev pub triage : Bool → Bool → Bool → Bool → Str
triage secret cert key password =
    if secret
    then str "static-key"
    else if cert && key && password
    then str "password-tls"
    else if cert && key
    then str "tls"
    else if password
    then str "password"
    else str "tls"

triage-contype_of :
    (s : Import) → contype_of s ≡ triage s.have_secret s.have_cert s.have_key s.have_auth_user_pass
unfolding contype_of
triage-contype_of s = ground arith

-- The connection type of an import depends only on whether the directives have, wherever they stand,
-- each of four things: a static key, as the option secret with an argument or the blob secret; a
-- certificate, as the option cert or pkcs12 with an argument or the blob cert; a key, as the option
-- key or pkcs12 with an argument or the blob key; and the option auth-user-pass. An inline pkcs12
-- blob counts for none of them, although it holds a certificate and a key. A static key gives
-- static-key; a certificate and a key give tls, or password-tls with auth-user-pass; auth-user-pass
-- without both gives password; all else gives tls.
pub as_nm_data-contype :
    (config : OvpnConfig)
    → as_nm_data config (str "connection-type")
      ≡ some (
          triage
            (has_secret config.directives)
            (has_cert config.directives)
            (has_key config.directives)
            (has_password config.directives))
unfolding as_nm_data
as_nm_data-contype config =
    insert_self (str "connection-type") _ _
    ∙ rw
        (
          triage-contype_of (import_all config.directives nothing_read),
          secret-given config.directives,
          cert-given config.directives,
          key-given config.directives,
          password-given config.directives,
        )
        refl

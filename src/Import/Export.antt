-- ===== src/Import/Export.antt =====
-- An import of an export.
use nm_openvpn.Export.RoundTrip.{parse-emit-from_nm_data}
use nm_openvpn.Ovpn.Validate.{validate}
use nm_openvpn.Ovpn.Emit.{emit}
use nm_openvpn.Ovpn.Parse.{parse}
use nm_openvpn.Import.Writes.{writes}
use nm_openvpn.Base.{
  Bool, Bool-cases, List, Option, Str, [], and-true, ap, arith, false, if◌then◌else◌, inl, inr,
  none, one_of, refl, some, str, str_eq, str_eq_iff, sym, true, ◌&&◌, ◌++◌, ◌||◌, ◌∙◌, ◌∷◌, ◌≡◌,
}
use nm_openvpn.Base.Lists.{All}
use nm_openvpn.Import.Single.{
  IsSingle, last_arg, last_of, later_assoc, later-none, pick_of, plain_key,
}
use nm_openvpn.Import.Arms.{arm_among, arm_of, arms}
use nm_openvpn.Import.Build.{as_nm_data, later}
use nm_openvpn.Ovpn.Defs.{Directive, OvpnConfig, Result, blob, err, first, ok, option, ◌>>◌}
use nm_openvpn.Profile.Values.{Data, get}
use nm_openvpn.Export.RouteWords.{leads}
use nm_openvpn.Export.Blocks.{pairs_str, push_opt, given, push_pairs}
use nm_openvpn.Export.Build.{from_nm_data}
use nm_openvpn.Export.Words.{IsOther, IsNamed, other_words}
use nm_openvpn.Export.Names.{
  before_pairs, after_pairs, before_pairs-IsNamed, after_pairs-IsNamed, from_nm_data-split,
}
use mathlib.Core.Bool.{true≢false}
use mathlib.Core.Path.{subst}

last_of-append :
    (pick : List Str → Option Str) (name : Str) (ds es : List Directive)
    → last_of pick name (ds ++ es) ≡ later (last_of pick name es) (last_of pick name ds)
unfolding last_of
last_of-append pick name [] es = sym (later-none _)
last_of-append pick name (d ∷ ds) es =
    rw (last_of-append pick name ds es)
      (sym (later_assoc (last_of pick name es) (last_of pick name ds) (pick_of pick name d)))

-- A name that is none of the others is not found among them.
silent :
    (pick : List Str → Option Str) (name : Str) (ds : List Directive)
    → (one_of other_words name || leads name) ≡ false
    → All IsNamed ds
    → last_of pick name ds ≡ none
unfolding last_of pick_of later
silent pick name [] h hs = refl
silent pick name (option n args ∷ ds) h (p, ps) = elim (Bool-cases (str_eq n name)) [
  | inl e ↦ absurd (true≢false (sym (subst IsOther ((str_eq_iff n name).0 e) p) ∙ h))
  | inr e ↦ rw (silent pick name ds h ps, e) refl
]
silent pick name (blob n body ∷ ds) h (p, ps) = absurd p

-- Exactly one pair has this option name, and its setting is the key.
unfoldable absent : Str → List (Str × Str) → Bool
absent name [] = true
absent name ((k, n) ∷ ps) = if str_eq n name then false else absent name ps

unfoldable held : Str → Str → List (Str × Str) → Bool
held name key [] = false
held name key ((k, n) ∷ ps) =
    if str_eq n name then str_eq k key && absent name ps else held name key ps

pick_pair :
    (name n : Str) (o : Option Str)
    → last_arg name (given o (λ v. push_opt n (v ∷ []))) ≡ (if str_eq n name then o else none)
unfolding given push_opt last_of pick_of later first
pick_pair name n none = ground arith
pick_pair name n (some v) = refl

step_pair :
    (data' : Data) (name k n : Str) (ps : List (Str × Str))
    → last_arg name (push_pairs data' ((k, n) ∷ ps))
      ≡ later (last_arg name (push_pairs data' ps)) (if str_eq n name then get data' k else none)
unfolding push_pairs
step_pair data' name k n ps =
    last_of-append first name _ (push_pairs data' ps) ∙ rw (pick_pair name n (get data' k)) refl

absent-pairs :
    (data' : Data) (name : Str) (ps : List (Str × Str))
    → absent name ps ≡ true
    → last_arg name (push_pairs data' ps) ≡ none
unfolding absent
absent-pairs data' name [] h = unfold push_pairs last_of in refl
absent-pairs data' name ((k, n) ∷ ps) h = elim (Bool-cases (str_eq n name)) [
  | inl e ↦ absurd (true≢false (sym (rw (e, absent) at h)))
  | inr e ↦
      step_pair data' name k n ps
      ∙ rw (e, absent-pairs data' name ps (rw (e, absent) at h)) (later-none none)
]

held-pairs :
    (data' : Data) (name key : Str) (ps : List (Str × Str))
    → held name key ps ≡ true
    → last_arg name (push_pairs data' ps) ≡ get data' key
unfolding held
held-pairs data' name key [] h = absurd (true≢false (sym h))
held-pairs data' name key ((k, n) ∷ ps) h = elim (Bool-cases (str_eq n name)) [
  | inl e ↦
      let (same, alone) = and-true (str_eq k key) (absent name ps) (rw (e, held) at h) in
      step_pair data' name k n ps
      ∙ rw (e, absent-pairs data' name ps alone, (str_eq_iff k key).0 same)
          (nothing_later (get data' key))
  | inr e ↦
      step_pair data' name k n ps
      ∙ rw (e, held-pairs data' name key ps (rw (e, held) at h)) (later-none _)
]
  where
    nothing_later : (o : Option Str) → later none o ≡ o
    nothing_later o = unfold later in refl

exported :
    (data' : Data) (name key : Str)
    → (one_of other_words name || leads name) ≡ false
    → held name key pairs_str ≡ true
    → last_arg name (from_nm_data data').directives ≡ get data' key
unfolding later
exported data' name key h k =
    rw
      (
        from_nm_data-split data',
        last_of-append first name (before_pairs data') _,
        last_of-append first name (push_pairs data' pairs_str) (after_pairs data'),
        silent first name (before_pairs data') h (before_pairs-IsNamed data'),
        silent first name (after_pairs data') h (after_pairs-IsNamed data'),
        later-none (last_arg name (push_pairs data' pairs_str)),
      )
      (held-pairs data' name key pairs_str k)

-- Settings that an export writes as one option each, which no other setting writes.
abbrev pub kept : List (Str × Str)
kept =
    (str "port", str "port")
    ∷ (str "cipher", str "cipher")
    ∷ (str "data-ciphers", str "data-ciphers")
    ∷ (str "data-ciphers-fallback", str "data-ciphers-fallback")
    ∷ (str "auth", str "auth")
    ∷ (str "keysize", str "keysize")
    ∷ (str "tls-cipher", str "tls-cipher")
    ∷ (str "tun-mtu", str "tunnel-mtu")
    ∷ (str "fragment", str "fragment-size")
    ∷ (str "ping-exit", str "ping-exit")
    ∷ (str "allow-compression", str "allow-compression")
    ∷ []

abbrev IsKept : Str × Str → Type 0
IsKept (name, key) =
    IsSingle (name, key)
    × ((one_of other_words name || leads name) ≡ false)
    × (held name key pairs_str ≡ true)

kept-IsKept : All IsKept kept
unfolding arm_of arm_among arms writes one_of str_eq str other_words leads held absent pairs_str
kept-IsKept = assumption refl

-- Each of these settings survives an export and the import of what was exported, if it is set and
-- not empty, whatever the other settings hold; and it is not there after the import if it was not.
pub as_nm_data-from_nm_data :
    (data' : Data) → All (λ nk. as_nm_data (from_nm_data data') nk.1 ≡ get data' nk.1) kept
as_nm_data-from_nm_data data' = every kept kept-IsKept
  where
    every :
        (l : List (Str × Str))
        → All IsKept l
        → All (λ nk. as_nm_data (from_nm_data data') nk.1 ≡ get data' nk.1) l
    every [] h = tt
    every ((name, key) ∷ l) ((single, apart, here), hs) = (
      plain_key name key single (from_nm_data data') ∙ exported data' name key apart here,
      every l hs,
    )

then_ok : {A : Type 0} (r : Result (Unit {0})) (a b : A) → (r >> ok a) ≡ ok b → a ≡ b
then_ok {A} (ok u) a b h = ap value h
  where
    value : Result A → A
    value (ok c) = c
    value (err e) = a
then_ok {A} (err e) a b h = absurd (true≢false (sym (ap is_ok h)))
  where
    is_ok : Result A → Bool
    is_ok (ok c) = true
    is_ok (err e) = false

-- When the text of an export can be parsed, its import gives back each of these settings as it was,
-- unset where it was unset or empty, whatever the other settings hold.
pub as_nm_data-parse :
    (data' : Data) (config : OvpnConfig)
    → parse (emit (from_nm_data data')) ≡ ok config
    → All (λ nk. as_nm_data config nk.1 ≡ get data' nk.1) kept
as_nm_data-parse data' config h =
    let same =
      then_ok (validate (from_nm_data data').directives) (from_nm_data data') config
        (sym (parse-emit-from_nm_data data') ∙ h) in
    subst (λ c. All (λ nk. as_nm_data c nk.1 ≡ get data' nk.1) kept) same
      (as_nm_data-from_nm_data data')

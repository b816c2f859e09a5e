-- ===== src/Editor/Sets.antt =====
-- What a sequence of `set`s leaves under each key.
use nm_openvpn.Base.{
  ap, Bool-cases, List, Option, Str, [], ◌⊎◌, arith, false, if◌then◌else◌, inl, inr, none, one_of,
  refl, some, str_eq, str_eq_iff, sym, true, ◌∙◌, ◌∷◌, ◌≡◌,
}
use nm_openvpn.Base.Lists.{All}
use nm_openvpn.Base.Maps.{Map, insert}
use nm_openvpn.Text.{is_empty}
use nm_openvpn.Import.Connection.{is_c_string, remove}
use nm_openvpn.Editor.Apply.{set, set_all}

-- What `set` leaves for a value.
unfoldable pub written : Str → Option Str
written v = if is_empty v then none else if is_c_string v then some v else none

abbrev pub keys : List (Str × Str) → List Str
keys [] = []
keys ((k, v) ∷ kvs) = k ∷ keys kvs

set_at :
    (k v : Str) (items : Map Str) (j : Str)
    → set k v items j ≡ (if str_eq j k then written v else items j)
unfolding set written remove insert
set_at k v items j = ground arith

pub one_of_hit : (t : Str) (ts : List Str) (s : Str) → str_eq s t ≡ true → one_of (t ∷ ts) s ≡ true
unfolding one_of
one_of_hit t ts s h = ground arith

pub one_of_miss :
    (t : Str) (ts : List Str) (s : Str) → str_eq s t ≡ false → one_of (t ∷ ts) s ≡ one_of ts s
unfolding one_of
one_of_miss t ts s h = ground arith

pub one_of_nil : (s : Str) → one_of [] s ≡ false
unfolding one_of
one_of_nil s = refl

set_hit : (k v : Str) (items : Map Str) (j : Str) → str_eq j k ≡ true → set k v items j ≡ written v
set_hit k v items j e = set_at k v items j ∙ rw e refl

set_miss : (k v : Str) (items : Map Str) (j : Str) → str_eq j k ≡ false → set k v items j ≡ items j
set_miss k v items j e = set_at k v items j ∙ rw e refl

pub set_all-outside :
    (kvs : List (Str × Str)) (items : Map Str) (j : Str)
    → one_of (keys kvs) j ≡ false
    → set_all kvs items j ≡ items j
unfolding set_all
set_all-outside [] items j h = refl
set_all-outside ((k, v) ∷ kvs) items j h = elim (Bool-cases (str_eq j k)) [
  | inl e ↦ cc (one_of_hit k (keys kvs) j e)
  | inr e ↦
      set_all-outside kvs (set k v items) j (sym (one_of_miss k (keys kvs) j e) ∙ h)
      ∙ set_miss k v items j e
]

-- Under a key of the sequence, what there was before does not matter.
pub set_all-inside :
    (kvs : List (Str × Str)) (items others : Map Str) (j : Str)
    → (items j ≡ others j) ⊎ (one_of (keys kvs) j ≡ true)
    → set_all kvs items j ≡ set_all kvs others j
unfolding set_all
set_all-inside [] items others j (inl e) = e
set_all-inside [] items others j (inr e) = cc (one_of_nil j)
set_all-inside ((k, v) ∷ kvs) items others j either = elim (Bool-cases (str_eq j k)) [
  | inl e ↦
      set_all-inside kvs (set k v items) (set k v others) j
        (inl (set_hit k v items j e ∙ sym (set_hit k v others j e)))
  | inr e ↦
      set_all-inside kvs (set k v items) (set k v others) j (missed k v kvs items others j e either)
]
  where
    missed :
        (k v : Str) (kvs : List (Str × Str)) (items others : Map Str) (j : Str)
        → str_eq j k ≡ false
        → (items j ≡ others j) ⊎ (one_of (k ∷ keys kvs) j ≡ true)
        → (set k v items j ≡ set k v others j) ⊎ (one_of (keys kvs) j ≡ true)
    missed k v kvs items others j e (inl same) =
        inl (set_miss k v items j e ∙ same ∙ sym (set_miss k v others j e))
    missed k v kvs items others j e (inr known) = inr (sym (one_of_miss k (keys kvs) j e) ∙ known)

-- Where every `set` writes what `d` has, the result agrees with `d`.
pub set_all-agree :
    (kvs : List (Str × Str)) (items d : Map Str) (j : Str)
    → All (λ kv. written kv.1 ≡ d kv.0) kvs
    → items j ≡ d j
    → set_all kvs items j ≡ d j
unfolding set_all
set_all-agree [] items d j h e = e
set_all-agree ((k, v) ∷ kvs) items d j (h, hs) agree = elim (Bool-cases (str_eq j k)) [
  | inl e ↦
      set_all-agree kvs (set k v items) d j hs
        (set_hit k v items j e ∙ h ∙ ap d (sym ((str_eq_iff j k).0 e)))
  | inr e ↦ set_all-agree kvs (set k v items) d j hs (set_miss k v items j e ∙ agree)
]

-- What the last of the `set`s under a key leaves there.
unfoldable pub value_at : List (Str × Str) → Str → Option Str → Option Str
value_at [] j o = o
value_at ((k, v) ∷ kvs) j o = value_at kvs j (if str_eq j k then written v else o)

pub set_all-value_at :
    (kvs : List (Str × Str)) (items : Map Str) (j : Str)
    → set_all kvs items j ≡ value_at kvs j (items j)
unfolding set_all value_at
set_all-value_at [] items j = refl
set_all-value_at ((k, v) ∷ kvs) items j =
    set_all-value_at kvs (set k v items) j ∙ ap (value_at kvs j) (set_at k v items j)

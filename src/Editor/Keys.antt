-- ===== src/Editor/Keys.antt =====
-- The keys that the dialog writes are those that it owns, and it leaves all others alone.
use nm_openvpn.Base.{
  Bool, Bool-cases, List, Option, Str, [], ap, and-true, arith, if◌then◌else◌, false, inl, inr,
  none, one_of, refl, some, str, str_eq, str_eq_iff, sym, true, ◌&&◌, ◌∙◌, ◌∷◌, ◌≡◌,
}
use nm_openvpn.Editor.Widgets.{EditorState, Numbers, selected_id}
use nm_openvpn.Editor.Apply.{
  Missing, applied, compression_values, device_values, general_values, misc_values, proxy_values,
  replay, replayed, save, save_unless, security_values, set_all, tls_values, update_connection,
  validate_required_fields, widget_data_keys, widget_values,
}
use nm_openvpn.Editor.Sets.{keys, one_of_miss, one_of_nil, set_all-inside, set_all-outside}
use nm_openvpn.Base.Maps.{empty}
use nm_openvpn.Import.Connection.{Connection, is_c_string}

abbrev all_in : List Str → List Str → Bool
all_in [] ys = true
all_in (x ∷ xs) ys = one_of ys x && all_in xs ys

one_of-all_in :
    (xs ys : List Str) (j : Str) → all_in xs ys ≡ true → one_of xs j ≡ true → one_of ys j ≡ true
one_of-all_in [] ys j h known = cc (one_of_nil j)
one_of-all_in (x ∷ xs) ys j h known = elim (Bool-cases (str_eq j x)) [
  | inl e ↦ ap (one_of ys) ((str_eq_iff j x).0 e) ∙ (and-true (one_of ys x) (all_in xs ys) h).0
  | inr e ↦
      one_of-all_in xs ys j (and-true (one_of ys x) (all_in xs ys) h).1
        (sym (one_of_miss x xs j e) ∙ known)
]

one_of-same :
    (xs ys : List Str) (j : Str)
    → all_in xs ys ≡ true
    → all_in ys xs ≡ true
    → one_of xs j ≡ one_of ys j
one_of-same xs ys j there back =
    ground (arith, one_of-all_in xs ys j there, one_of-all_in ys xs j back)

-- The value that the dialog was opened with, where libnm can hold it, or else the old one.
abbrev pub kept : Str → Option Str → Option Str → Option Str
kept j none old = old
kept j (some v) old = if is_c_string j && is_c_string v then some v else old

replayed-kept :
    (j : Str) (o old : Option Str)
    → one_of widget_data_keys j ≡ false
    → replayed j o old ≡ kept j o old
unfolding replayed
replayed-kept j none old h = refl
replayed-kept j (some v) old h = rw h refl

module _ (N : Numbers) where
  open N use {F}

  abbrev values : EditorState F → List (Str × Str)
  values st = widget_values N (selected_id st.contype) st

  -- What is missing in the rows.
  abbrev pub required : Str → EditorState F → Option Missing
  required ct st =
      validate_required_fields ct st.remote st.ca st.cert st.key st.username st.static_key

  covered :
      (ct : Str) (st : EditorState F)
      → all_in (keys (widget_values N ct st)) widget_data_keys ≡ true
  unfolding widget_values general_values device_values compression_values security_values tls_values
      proxy_values misc_values one_of str str_eq
  covered ct st = refl

  owned :
      (ct : Str) (st : EditorState F)
      → all_in widget_data_keys (keys (widget_values N ct st)) ≡ true
  unfolding widget_values general_values device_values compression_values security_values tls_values
      proxy_values misc_values one_of str str_eq
  owned ct st = refl

  pub widget_values-keys :
      (ct : Str) (st : EditorState F) (j : Str)
      → one_of (keys (widget_values N ct st)) j ≡ one_of widget_data_keys j
  widget_values-keys ct st j =
      one_of-same (keys (widget_values N ct st)) widget_data_keys j (covered ct st) (owned ct st)

  save_unless-applied :
      (missing : Option Missing) (ct : Str) (st : EditorState F) (c c' : Connection)
      → save_unless N missing ct st c ≡ applied c'
      → (missing ≡ none) × (c' ≡ save N ct st c)
  unfolding save_unless
  save_unless-applied none ct st c c' h = (refl, cc)
  save_unless-applied (some m) ct st c c' h = cc

  -- What is applied is what `save` makes of the connection.
  pub update_connection-applied :
      (st : EditorState F) (c c' : Connection)
      → update_connection N st c ≡ applied c'
      → (required (selected_id st.contype) st ≡ none) × (c' ≡ save N (selected_id st.contype) st c)
  unfolding update_connection
  update_connection-applied st c c' h = save_unless-applied _ _ st c c' h

  -- An applied dialog leaves under each key that it owns what its rows say, whatever the connection
  -- had there. Any other key keeps the value that the dialog was opened with, or, where there was
  -- none that libnm can hold, the value that the connection has.
  pub update_connection-items :
      (st : EditorState F) (c c' : Connection)
      → update_connection N st c ≡ applied c'
      → (j : Str)
      → c'.items j ≡ (
          if one_of widget_data_keys j
          then set_all (widget_values N (selected_id st.contype) st) empty j
          else kept j (st.initial_data j) (c.items j))
  unfolding save replay
  update_connection-items st c c' h j = elim (Bool-cases (one_of widget_data_keys j)) [
    | inl e ↦
        ap (λ x. x.items j) (update_connection-applied st c c' h).1
        ∙ set_all-inside (values st) (replay st.initial_data c.items) empty j
            (inr (widget_values-keys (selected_id st.contype) st j ∙ e))
        ∙ rw e refl
    | inr e ↦
        ap (λ x. x.items j) (update_connection-applied st c c' h).1
        ∙ set_all-outside (values st) (replay st.initial_data c.items) j
            (widget_values-keys (selected_id st.contype) st j ∙ e)
        ∙ rw e (replayed-kept j (st.initial_data j) (c.items j) e)
  ]

-- ===== src/Editor/Visible.antt =====
-- nm-openvpn3-editor/src/editor.rs: the rows that are shown while the dialog is edited. A step is a
-- change of one row by the user, together with the handlers that GTK runs for it; `changed` counts
-- the signals to the host.
use nm_openvpn.Base.{
  Bool, Bool-cases, List, Str, [], ap, false, if◌then◌else◌, inl, inr, one_of, refl, str, str_eq,
  str_eq_iff, sym, true, ℕ, ◌+◌, ◌∙◌, ◌≡◌,
}
use nm_openvpn.Base.Maps.{Map}
use nm_openvpn.Editor.Widgets.{EditorState, Numbers, nth, selected_id, unwrap_or}
use nm_openvpn.Editor.Tree.{build_widget_tree, mssfix_on, text}
use nm_openvpn.Editor.Apply.{
  Shown, apply_contype_visibility, from_id, keep_if, validate_required_fields,
}
use nm_openvpn.Editor.Gate.{validate-keep_if}

pub record Dialog (F : Type 0) : Type 0 where
  pub rows : EditorState F
  pub shown : Shown
  pub bytes_shown : Bool
  pub changed : ℕ

-- The closure of `wire_contype_visibility`, with the choices that it took along. It sets the rows by
-- itself; `apply_contype_visibility` is called only when the dialog is opened.
unfoldable pub on_type_selected : List Str → ℕ → Shown
on_type_selected ids idx =
    let flags = from_id (unwrap_or [] (nth ids idx)) in
    record {
      ca = flags.tls_like;
      cert = flags.needs_user_cert;
      key = flags.needs_user_cert;
      cert_pass = flags.needs_user_cert;
      username = flags.needs_password;
      password = flags.needs_password;
      static_key = flags.is_static_key;
      static_key_dir = flags.is_static_key;
    }

-- The rows of the credentials, type by type; an unknown type has none.
abbrev pub rows_of : Bool → Bool → Bool → Bool → Shown
rows_of authority certificate password key = record {
  ca = authority;
  cert = certificate;
  key = certificate;
  cert_pass = certificate;
  username = password;
  password = password;
  static_key = key;
  static_key_dir = key;
}

abbrev pub rows_for : Str → Shown
rows_for ct =
    if str_eq ct (str "tls")
    then rows_of true true false false
    else if str_eq ct (str "password")
    then rows_of true false true false
    else if str_eq ct (str "password-tls")
    then rows_of true true true false
    else if str_eq ct (str "static-key")
    then rows_of false false false true
    else rows_of false false false false

contype-rows_for : (ct : Str) → apply_contype_visibility ct ≡ rows_for ct
unfolding apply_contype_visibility from_id one_of str str_eq
contype-rows_for ct = elim (Bool-cases (str_eq ct (str "tls"))) [
  | inl e ↦ rw ((str_eq_iff ct (str "tls")).0 e) refl
  | inr a ↦ elim (Bool-cases (str_eq ct (str "password"))) [
    | inl e ↦ rw ((str_eq_iff ct (str "password")).0 e) refl
    | inr b ↦ elim (Bool-cases (str_eq ct (str "password-tls"))) [
      | inl e ↦ rw ((str_eq_iff ct (str "password-tls")).0 e) refl
      | inr c ↦ elim (Bool-cases (str_eq ct (str "static-key"))) [
        | inl e ↦ rw ((str_eq_iff ct (str "static-key")).0 e) refl
        | inr d ↦ simp (from_id, one_of, a, b, c, d)
      ]
    ]
  ]
]

selected-rows_for :
    (ids : List Str) (idx : ℕ) → on_type_selected ids idx ≡ rows_for (unwrap_or [] (nth ids idx))
unfolding on_type_selected apply_contype_visibility
selected-rows_for ids idx = contype-rows_for (unwrap_or [] (nth ids idx))

module _ {F : Type 0} where
  unfoldable pub select_type : EditorState F → ℕ → EditorState F
  select_type st i = record st { contype = record st.contype { selected = i } }

  unfoldable pub switch_mssfix : EditorState F → Bool → EditorState F
  switch_mssfix st b = record st { mssfix_enabled = b }

  -- The rows of `st'` but for those of the connection type and of the MSSfix switch.
  pub record IsOther (st st' : EditorState F) : Type 0 where
    pub same_type : st'.contype ≡ st.contype
    pub same_switch : st'.mssfix_enabled ≡ st.mssfix_enabled

  -- The handlers of one change: those that show and hide rows, and `emit_changed`. `ids` are the
  -- choices of the connection type that the dialog was built with.
  pub data Step (ids : List Str) (w : Dialog F) : Dialog F → Type 0 where
    type_selected :
        (i : ℕ)
        → Step ids w (record {
          rows = select_type w.rows i;
          shown = on_type_selected ids i;
          bytes_shown = w.bytes_shown;
          changed = w.changed + 1;
        })
    mssfix_switched :
        (b : Bool)
        → Step ids w (record {
          rows = switch_mssfix w.rows b;
          shown = w.shown;
          bytes_shown = b;
          changed = w.changed + 1;
        })
    row_edited :
        (st : EditorState F)
        → IsOther w.rows st
        → Step ids w (record {
          rows = st;
          shown = w.shown;
          bytes_shown = w.bytes_shown;
          changed = w.changed + 1;
        })

  pub data Reach (ids : List Str) (w : Dialog F) : Dialog F → Type 0 where
    here : Reach ids w w
    next : {v u : Dialog F} → Reach ids w v → Step ids v u → Reach ids w u

  -- What is shown fits what is chosen.
  pub record IsInStep (ids : List Str) (w : Dialog F) : Type 0 where
    pub choices : w.rows.contype.ids ≡ ids
    pub rows_fit : w.shown ≡ rows_for (selected_id w.rows.contype)
    pub bytes_fit : w.bytes_shown ≡ w.rows.mssfix_enabled

  Step-IsInStep : {ids : List Str} {w v : Dialog F} → Step ids w v → IsInStep ids w → IsInStep ids v
  unfolding select_type switch_mssfix selected_id
  Step-IsInStep {ids} {w} (type_selected i) h = record {
    choices = h.choices;
    rows_fit =
        selected-rows_for ids i ∙ ap (λ xs. rows_for (unwrap_or [] (nth xs i))) (sym h.choices);
    bytes_fit = h.bytes_fit;
  }
  Step-IsInStep (mssfix_switched b) h = record {
    choices = h.choices;
    rows_fit = h.rows_fit;
    bytes_fit = refl;
  }
  Step-IsInStep (row_edited st other) h = record {
    choices = ap (λ b. b.ids) other.same_type ∙ h.choices;
    rows_fit = h.rows_fit ∙ ap (λ b. rows_for (selected_id b)) (sym other.same_type);
    bytes_fit = h.bytes_fit ∙ sym other.same_switch;
  }

  pub Reach-IsInStep :
      {ids : List Str} {w v : Dialog F} → Reach ids w v → IsInStep ids w → IsInStep ids v
  Reach-IsInStep here h = h
  Reach-IsInStep (next r st) h = Step-IsInStep st (Reach-IsInStep r h)

module _ (N : Numbers) where
  open N use {F}

  -- The end of `build_widget_tree`.
  unfoldable pub open_dialog : Map Str → Dialog F
  open_dialog initial =
      let rows = build_widget_tree N initial in
      record {
        rows = rows;
        shown = apply_contype_visibility (selected_id rows.contype);
        bytes_shown = mssfix_on N (text initial (str "mssfix"));
        changed = 0;
      }

  open_dialog-IsInStep :
      (initial : Map Str) → IsInStep (build_widget_tree N initial).contype.ids (open_dialog initial)
  unfolding open_dialog build_widget_tree
  open_dialog-IsInStep initial = record {
    choices = refl;
    rows_fit = contype-rows_for _;
    bytes_fit = refl;
  }

  -- However the rows are edited, the credentials that are shown are those that the table above lists
  -- for the selected connection type, the byte count is shown exactly while MSSfix is on, and whether the dialog may be applied
  -- is decided by the rows that are shown: blanking those that are hidden changes nothing.
  pub Reach-shown :
      (initial : Map Str) (w : Dialog F)
      → Reach (build_widget_tree N initial).contype.ids (open_dialog initial) w
      → (w.shown ≡ rows_for (selected_id w.rows.contype))
        × (w.bytes_shown ≡ w.rows.mssfix_enabled)
        × (validate_required_fields
              (selected_id w.rows.contype)
              w.rows.remote
              (keep_if w.shown.ca w.rows.ca)
              (keep_if w.shown.cert w.rows.cert)
              (keep_if w.shown.key w.rows.key)
              (keep_if w.shown.username w.rows.username)
              (keep_if w.shown.static_key w.rows.static_key)
            ≡ validate_required_fields
                (selected_id w.rows.contype)
                w.rows.remote
                w.rows.ca
                w.rows.cert
                w.rows.key
                w.rows.username
                w.rows.static_key)
  Reach-shown initial w r =
      let h = Reach-IsInStep r (open_dialog-IsInStep initial) in
      (
        h.rows_fit,
        h.bytes_fit,
        ap
              (λ (s : Shown).
                validate_required_fields (selected_id w.rows.contype) w.rows.remote
                  (keep_if s.ca w.rows.ca) (keep_if s.cert w.rows.cert) (keep_if s.key w.rows.key)
                  (keep_if s.username w.rows.username) (keep_if s.static_key w.rows.static_key))
              (h.rows_fit ∙ sym (contype-rows_for (selected_id w.rows.contype)))
            ∙ validate-keep_if (selected_id w.rows.contype) w.rows.remote w.rows.ca w.rows.cert
                w.rows.key w.rows.username w.rows.static_key,
      )

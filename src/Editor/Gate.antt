-- ===== src/Editor/Gate.antt =====
-- What the dialog requires is asked of rows that are shown, and holds of what is saved.
use nm_openvpn.Editor.Keys.{update_connection-applied}
use nm_openvpn.Profile.Clean.{IsSafeLine}
use nm_openvpn.Profile.Safe.{build_profile_string-IsSafeLine}
use nm_openvpn.Profile.Build.{build_profile_string}
use nm_openvpn.Profile.Values.{get, arg_is_set, Data}
use nm_openvpn.Editor.Sets.{written, value_at, set_all-value_at}
use nm_openvpn.Import.Connection.{Connection, is_c_string}
use nm_openvpn.Editor.Tree.{text}
use nm_openvpn.Base.{
  Bool, Str, [], ap, arith, false, none, one_of, refl, some, str, str_eq, true, ◌∙◌, ◌∷◌, ◌≡◌,
}
use nm_openvpn.Base.Lists.{All}
use nm_openvpn.Base.Maps.{Map}
use nm_openvpn.Text.{any_char, is_empty, lines}
use nm_openvpn.Editor.Widgets.{EditorState, Numbers, selected_id, unwrap_or}
use nm_openvpn.Editor.Apply.{
  applied, apply_contype_visibility, compression_values, device_values, from_id, general_values,
  keep_if, misc_values, proxy_values, replay, save, security_values, tls_values, update_connection,
  validate_required_fields, widget_values,
}

-- Text in a row that is not shown does not matter.
pub validate-keep_if :
    (ct remote ca cert key username static_key : Str)
    → let shown = apply_contype_visibility ct in
      validate_required_fields ct remote
        (keep_if shown.ca ca)
        (keep_if shown.cert cert)
        (keep_if shown.key key)
        (keep_if shown.username username)
        (keep_if shown.static_key static_key)
      ≡ validate_required_fields ct remote ca cert key username static_key
unfolding validate_required_fields apply_contype_visibility from_id keep_if one_of is_empty
validate-keep_if ct remote ca cert key username static_key = ground arith

written_c_string : (v : Str) → is_c_string v ≡ true → unwrap_or [] (written v) ≡ v
unfolding written unwrap_or is_empty
written_c_string [] h = refl
written_c_string (c ∷ s) h = rw h refl

-- GTK holds no NUL in the texts that are checked.
pub record AreCStrings {F : Type 0} (st : EditorState F) : Type 0 where
  pub remote : is_c_string st.remote ≡ true
  pub ca : is_c_string st.ca ≡ true
  pub cert : is_c_string st.cert ≡ true
  pub key : is_c_string st.key ≡ true
  pub username : is_c_string st.username ≡ true
  pub static_key : is_c_string st.static_key ≡ true

keep_if-is_c_string : (b : Bool) (s : Str) → is_c_string s ≡ true → is_c_string (keep_if b s) ≡ true
unfolding keep_if is_c_string any_char
keep_if-is_c_string true s h = h
keep_if-is_c_string false s h = refl

module _ (N : Numbers) where
  open N use {F}

  -- What is left under a key is what the last `set` of it writes.
  pub saved_at :
      (ct : Str) (st : EditorState F) (c : Connection) (k : Str)
      → (save N ct st c).items k
        ≡ value_at (widget_values N ct st) k (replay st.initial_data c.items k)
  unfolding save
  saved_at ct st c k = set_all-value_at (widget_values N ct st) (replay st.initial_data c.items) k

  -- The saved texts that the dialog checks.
  pub record IsSaved (ct : Str) (st : EditorState F) (d : Map Str) : Type 0 where
    pub remote : d (str "remote") ≡ written st.remote
    pub ca : d (str "ca") ≡ written (keep_if (from_id ct).tls_like st.ca)
    pub cert : d (str "cert") ≡ written (keep_if (from_id ct).needs_user_cert st.cert)
    pub key : d (str "key") ≡ written (keep_if (from_id ct).needs_user_cert st.key)
    pub username : d (str "username") ≡ written (keep_if (from_id ct).needs_password st.username)
    pub static_key :
        d (str "static-key") ≡ written (keep_if (from_id ct).is_static_key st.static_key)

  save-IsSaved :
      (ct : Str) (st : EditorState F) (c : Connection) → IsSaved ct st (save N ct st c).items
  unfolding value_at widget_values general_values device_values compression_values security_values
      tls_values proxy_values misc_values str str_eq
  save-IsSaved ct st c = record {
    remote = saved_at ct st c (str "remote");
    ca = saved_at ct st c (str "ca");
    cert = saved_at ct st c (str "cert");
    key = saved_at ct st c (str "key");
    username = saved_at ct st c (str "username");
    static_key = saved_at ct st c (str "static-key");
  }

  text_saved : (k v : Str) (d : Map Str) → d k ≡ written v → is_c_string v ≡ true → text d k ≡ v
  unfolding text
  text_saved k v d e h = rw e (written_c_string v h)

  -- What is required of the rows holds of the saved texts.
  validate-IsSaved :
      (ct : Str) (st : EditorState F) (d : Map Str)
      → AreCStrings st
      → IsSaved ct st d
      → validate_required_fields ct
          (text d (str "remote"))
          (text d (str "ca"))
          (text d (str "cert"))
          (text d (str "key"))
          (text d (str "username"))
          (text d (str "static-key"))
        ≡ validate_required_fields ct st.remote st.ca st.cert st.key st.username st.static_key
  unfolding apply_contype_visibility
  validate-IsSaved ct st d t h =
      rw
        (
          text_saved (str "remote") _ d h.remote t.remote,
          text_saved (str "ca") _ d h.ca (keep_if-is_c_string _ st.ca t.ca),
          text_saved (str "cert") _ d h.cert (keep_if-is_c_string _ st.cert t.cert),
          text_saved (str "key") _ d h.key (keep_if-is_c_string _ st.key t.key),
          text_saved (str "username") _ d h.username (keep_if-is_c_string _ st.username t.username),
          text_saved (str "static-key") _ d h.static_key
              (keep_if-is_c_string _ st.static_key t.static_key),
        )
        (validate-keep_if ct st.remote st.ca st.cert st.key st.username st.static_key)

  -- Once a dialog is applied, the saved settings have all that its connection type requires: text in
  -- rows that the type hides counts neither for the check nor for what is saved.
  pub update_connection_complete :
      (st : EditorState F) (c c' : Connection)
      → AreCStrings st
      → update_connection N st c ≡ applied c'
      → validate_required_fields
          (selected_id st.contype)
          (text c'.items (str "remote"))
          (text c'.items (str "ca"))
          (text c'.items (str "cert"))
          (text c'.items (str "key"))
          (text c'.items (str "username"))
          (text c'.items (str "static-key"))
        ≡ none
  update_connection_complete st c c' t h =
      let (complete, e) = update_connection-applied N st c c' h in
      rw e (
        validate-IsSaved (selected_id st.contype) st _ t
          (save-IsSaved (selected_id st.contype) st c)
        ∙ complete)

  get-written :
      (v : Str) (d : Map Str) (k : Str)
      → d k ≡ written v
      → is_empty v ≡ false
      → is_c_string v ≡ true
      → get d k ≡ some v
  unfolding get arg_is_set written is_empty
  get-written [] d k e full h = cc
  get-written (x ∷ v) d k e full h = rw e (rw h refl)

  validate-gateway :
      (ct remote ca cert key username static_key : Str)
      → validate_required_fields ct remote ca cert key username static_key ≡ none
      → is_empty remote ≡ false
  unfolding validate_required_fields
  validate-gateway ct remote ca cert key username static_key h = ground arith

  -- From the settings of an applied dialog the service builds a profile, whatever the secrets hold,
  -- and every line of it begins with one of the listed directives or is `script-security 2`.
  pub update_connection-build_profile_string :
      (st : EditorState F) (c c' : Connection) (secrets : Data)
      → is_c_string st.remote ≡ true
      → update_connection N st c ≡ applied c'
      → (out : Str) × (build_profile_string c'.items secrets ≡ some out)
        × All IsSafeLine (lines out)
  update_connection-build_profile_string st c c' secrets whole h =
      let (complete, e) = update_connection-applied N st c c' h in
      let ct = selected_id st.contype in
      build_profile_string-IsSafeLine c'.items secrets st.remote (
        get-written st.remote c'.items (str "remote")
          (ap (λ x. x.items (str "remote")) e ∙ (save-IsSaved ct st c).remote)
          (validate-gateway ct _ st.ca st.cert st.key st.username st.static_key complete) whole)

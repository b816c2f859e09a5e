-- ===== src/Tests/Editors.antt =====
-- Applications of the results on the dialog.
use nm_openvpn.Editor.Visible.{
  Dialog, Reach, here, next, open_dialog, select_type, on_type_selected, rows_for, type_selected,
  Reach-shown,
}
use nm_openvpn.Base.{
  Bool-cases, Str, arith, if◌then◌else◌, inl, inr, ltb, none, one_of, refl, some, str, str_eq, ℕ,
  ◌+◌, ◌≡◌, ◌≤◌,
}
use nm_openvpn.Base.Lists.{All}
use nm_openvpn.Base.Maps.{Map, empty, insert}
use nm_openvpn.Text.{any_char, is_empty, lines, pos, read_digits, to_string, digits}
use nm_openvpn.Text.Decimal.{read_digits-to_string}
use nm_openvpn.Import.Connection.{Connection, is_c_string}
use nm_openvpn.Profile.Build.{build_profile_string}
use nm_openvpn.Profile.Clean.{IsSafeLine}
use nm_openvpn.Editor.Widgets.{EditorState, Numbers, selected_id, unwrap_or}
use nm_openvpn.Editor.Tree.{
  build_widget_tree, parse_int_default, spin, spin_row, text, timer_secs_max,
}
use nm_openvpn.Editor.Apply.{
  applied, from_id, keep_if, set_all, update_connection, validate_required_fields, widget_data_keys,
  widget_values,
}
use nm_openvpn.Editor.Keys.{kept, update_connection-items}
use nm_openvpn.Editor.Rows.{IsFaithful, IsHeld, bytes, no_number, number, off, on}
use nm_openvpn.Editor.Settled.{IsSettled}
use nm_openvpn.Editor.Reopen.{update_connection-build_widget_tree}
use nm_openvpn.Owner.Overrides.{apply_overrides}
use nm_openvpn.Owner.Switches.{asked_for, update_connection-apply_overrides}
use nm_openvpn.Editor.Gate.{
  AreCStrings, update_connection-build_profile_string, update_connection_complete,
}

-- Whole numbers in the place of `f64`.
abbrev whole_numbers : Numbers
whole_numbers = record {
  F = ℕ;
  of_nat = λ n. n;
  parse_f64 = λ s. if is_empty s then none else read_digits 10 timer_secs_max 0 s;
  larger = λ a b. if ltb a b then b else a;
  exceeds = λ a b. ltb b a;
  set_value = λ low high v. if ltb v low then low else if ltb high v then high else v;
  as_i64 = λ n. pos n;
}

whole_parse : (n : ℕ) → n ≤ timer_secs_max → whole_numbers.parse_f64 (to_string (pos n)) ≡ some n
whole_parse n h =
    let (full, back) = read_digits-to_string timer_secs_max n h (omega arith) in rw full back

whole_parse_yes : whole_numbers.parse_f64 (str "yes") ≡ none
unfolding is_empty read_digits str
whole_parse_yes = refl

whole_larger : (n : ℕ) → (if ltb n 0 then 0 else n) ≡ n
whole_larger n = ground arith

whole_range : (n top : ℕ) → n ≤ top → (if ltb n 0 then 0 else if ltb top n then top else n) ≡ n
whole_range n top h = ground arith

whole_numbers-IsFaithful : IsFaithful whole_numbers
unfolding is_empty
whole_numbers-IsFaithful = record {
  parse_digits = whole_parse;
  parse_empty = refl;
  parse_yes = whole_parse_yes;
  larger_zero = λ n h. whole_larger n;
  exceeds_zero = λ n h. refl;
  in_range = λ n top h k. whole_range n top h;
  cast = λ n h. refl;
}

-- A connection with a password, on port 1194.
abbrev password_data : Map Str
password_data = insert (str "connection-type") (str "password") (
    insert (str "remote") (str "vpn.example.org") (
      insert (str "username") (str "ada")
        (insert (str "port") (to_string (pos 1194)) (insert (str "proto-tcp") (str "yes") empty))))

abbrev password_connection : Connection
password_connection = record { id = str "office"; items = password_data; secrets = empty }

IsHeld-insert :
    (k v : Str) (d : Map Str)
    → IsHeld (some v)
    → ((j : Str) → IsHeld (d j))
    → (j : Str) → IsHeld (insert k v d j)
unfolding insert
IsHeld-insert k v d h hs j = elim (Bool-cases (str_eq j k)) [ inl e ↦ rw e h | inr e ↦ rw e (hs j) ]

password_data-IsHeld : (k : Str) → IsHeld (password_data k)
unfolding str is_empty is_c_string any_char to_string digits
password_data-IsHeld =
    IsHeld-insert _ _ _ (refl, refl)
      (IsHeld-insert _ _ _ (refl, refl)
        (IsHeld-insert _ _ _ (refl, refl)
          (IsHeld-insert _ _ _ (refl, refl) (IsHeld-insert _ _ _ (refl, refl) (λ j. tt)))))

password_data-IsSettled : IsSettled (str "password") password_data
unfolding insert str str_eq from_id one_of
password_data-IsSettled = record {
  held = password_data-IsHeld;
  type_is = refl;
  numbers = (number 1193 (omega arith), (no_number, (no_number, (no_number, (no_number, tt)))));
  timers = (no_number, (no_number, (no_number, (no_number, tt))));
  switches = (on, (off, (off, (off, (off, (off, (off, tt)))))));
  log_level = no_number;
  mssfix = bytes no_number;
  ca = λ h. refl;
  cert = λ h. refl;
  key = λ h. refl;
  username = λ h. cc;
  static_key = λ h. refl;
  direction = λ h. refl;
}

password_complete :
    validate_required_fields
      (str "password")
      (text password_data (str "remote"))
      (text password_data (str "ca"))
      (text password_data (str "cert"))
      (text password_data (str "key"))
      (text password_data (str "username"))
      (text password_data (str "static-key"))
    ≡ none
unfolding insert validate_required_fields text unwrap_or str str_eq one_of is_empty
password_complete = refl

abbrev opened : EditorState ℕ
opened = build_widget_tree whole_numbers password_data

update_connection-build_widget_tree_example :
    update_connection whole_numbers opened password_connection ≡ applied password_connection
update_connection-build_widget_tree_example =
    update_connection-build_widget_tree whole_numbers whole_numbers-IsFaithful (str "password")
      password_connection password_data-IsSettled password_complete

update_connection-items_example : password_data (str "remote") ≡ (
    if one_of widget_data_keys (str "remote")
    then set_all
        (widget_values whole_numbers (selected_id opened.contype) opened)
        empty
        (str "remote")
    else kept (str "remote") (opened.initial_data (str "remote")) (password_data (str "remote")))
update_connection-items_example =
    update_connection-items whole_numbers opened password_connection password_connection
      update_connection-build_widget_tree_example (str "remote")

opened-AreCStrings : AreCStrings opened
unfolding insert build_widget_tree text unwrap_or str str_eq is_c_string any_char
opened-AreCStrings = record {
  remote = refl;
  ca = refl;
  cert = refl;
  key = refl;
  username = refl;
  static_key = refl;
}

update_connection_complete_example :
    validate_required_fields
      (selected_id opened.contype)
      (text password_data (str "remote"))
      (text password_data (str "ca"))
      (text password_data (str "cert"))
      (text password_data (str "key"))
      (text password_data (str "username"))
      (text password_data (str "static-key"))
    ≡ none
update_connection_complete_example =
    update_connection_complete whole_numbers opened password_connection password_connection
      opened-AreCStrings update_connection-build_widget_tree_example

update_connection-build_profile_string_example :
    (out : Str) × (build_profile_string password_data empty ≡ some out) × All IsSafeLine (lines out)
update_connection-build_profile_string_example =
    update_connection-build_profile_string whole_numbers opened password_connection
      password_connection empty opened-AreCStrings.remote
      update_connection-build_widget_tree_example

-- The user selects the static key.
abbrev reselected : Dialog ℕ
reselected =
    let ids = opened.contype.ids in
    let w = open_dialog whole_numbers password_data in
    record {
      rows = select_type w.rows 3;
      shown = on_type_selected ids 3;
      bytes_shown = w.bytes_shown;
      changed = w.changed + 1;
    }

reselected_reached : Reach opened.contype.ids (open_dialog whole_numbers password_data) reselected
reselected_reached = next here (type_selected 3)

Reach-shown_example :
    (reselected.shown ≡ rows_for (selected_id reselected.rows.contype))
    × (reselected.bytes_shown ≡ reselected.rows.mssfix_enabled)
    × (validate_required_fields
          (selected_id reselected.rows.contype)
          reselected.rows.remote
          (keep_if reselected.shown.ca reselected.rows.ca)
          (keep_if reselected.shown.cert reselected.rows.cert)
          (keep_if reselected.shown.key reselected.rows.key)
          (keep_if reselected.shown.username reselected.rows.username)
          (keep_if reselected.shown.static_key reselected.rows.static_key)
        ≡ validate_required_fields
            (selected_id reselected.rows.contype)
            reselected.rows.remote
            reselected.rows.ca
            reselected.rows.cert
            reselected.rows.key
            reselected.rows.username
            reselected.rows.static_key)
Reach-shown_example = Reach-shown whole_numbers password_data reselected reselected_reached

opened_level : whole_numbers.as_i64 opened.or_log_level ≡ pos 0
unfolding build_widget_tree spin spin_row parse_int_default insert str_eq str
opened_level = refl

update_connection-apply_overrides_example : apply_overrides password_data ≡ asked_for opened 0
update_connection-apply_overrides_example =
    update_connection-apply_overrides whole_numbers opened password_connection password_connection 0
      update_connection-build_widget_tree_example opened_level (omega arith)

-- ===== src/Owner/Switches.antt =====
-- From the switches of the dialog to the overrides that the service sets.
use nm_openvpn.Base.{
  Bool, List, Str, [], ap, append_assoc, arith, if◌then◌else◌, is_some_str, refl, str, str_eq, suc,
  true, false, zero, ℕ, ◌++◌, ◌∙◌, ◌∷◌, ◌≡◌, ◌≤◌,
}
use nm_openvpn.Base.Maps.{Map}
use nm_openvpn.Text.{
  any_char, digits, from_str_radix, is_empty, pos, read_digits, to_string, read_some, to_digit,
}
use nm_openvpn.Import.Connection.{Connection, is_c_string}
use nm_openvpn.Editor.Widgets.{EditorState, Numbers, selected_id}
use nm_openvpn.Editor.Apply.{
  applied, int_or_empty, save, update_connection, widget_values, general_values, device_values,
  compression_values, security_values, tls_values, proxy_values, misc_values, yes_or_empty,
}
use nm_openvpn.Editor.Keys.{update_connection-applied}
use nm_openvpn.Editor.Gate.{saved_at}
use nm_openvpn.Editor.Sets.{value_at, written}
use nm_openvpn.Owner.Overrides.{
  Override, apply_overrides, bool_overrides, level_in_range, level_override, set_bool, set_string,
}

-- The overrides that are asked for.
abbrev pub if_on : Bool → Str → List Override
if_on true name = set_bool name ∷ []
if_on false name = []

abbrev pub log_level : ℕ → List Override
log_level zero = []
log_level (suc n) = set_string (str "log-level") (to_string (pos (suc n))) ∷ []

abbrev pub asked_for : {F : Type 0} → EditorState F → ℕ → List Override
asked_for st n =
    if_on st.or_route_nopull (str "route-nopull")
    ++ (if_on st.or_force_default_gateway (str "force-default-gateway")
        ++ (if_on st.or_block_ipv6 (str "block-ipv6")
            ++ (if_on st.or_dns_setup_disabled (str "dns-setup-disabled")
                ++ (if_on st.or_dco (str "dco") ++ log_level n))))

yes_written : (b : Bool) → is_some_str (written (yes_or_empty b)) (str "yes") ≡ b
unfolding written yes_or_empty is_some_str is_empty is_c_string any_char str str_eq
yes_written true = refl
yes_written false = refl

level_written : (n : ℕ) → n ≤ 6 → level_override (written (int_or_empty (pos n))) ≡ log_level n
unfolding level_override level_in_range written int_or_empty to_string digits is_empty is_c_string
    any_char str str_eq from_str_radix read_digits read_some to_digit
level_written zero h = refl
level_written (suc zero) h = refl
level_written (suc (suc zero)) h = refl
level_written (suc (suc (suc zero))) h = refl
level_written (suc (suc (suc (suc zero)))) h = refl
level_written (suc (suc (suc (suc (suc zero))))) h = refl
level_written (suc (suc (suc (suc (suc (suc zero)))))) h = refl
level_written (suc (suc (suc (suc (suc (suc (suc n))))))) h = absurd (omega arith)

-- The settings that the overrides are read from.
record AreSet (d : Map Str) (nopull gateway ipv6 dns dco : Bool) (n : ℕ) : Type 0 where
  nopull_set : d (str "override-route-nopull") ≡ written (yes_or_empty nopull)
  gateway_set : d (str "override-force-default-gateway") ≡ written (yes_or_empty gateway)
  ipv6_set : d (str "override-block-ipv6") ≡ written (yes_or_empty ipv6)
  dns_set : d (str "override-dns-setup-disabled") ≡ written (yes_or_empty dns)
  dco_set : d (str "override-dco") ≡ written (yes_or_empty dco)
  level_set : d (str "override-log-level") ≡ written (int_or_empty (pos n))

one_more :
    (d : Map Str) (key name : Str) (keys : List (Str × Str)) (b : Bool)
    → d key ≡ written (yes_or_empty b)
    → bool_overrides ((key, name) ∷ keys) d ≡ if_on b name ++ bool_overrides keys d
unfolding bool_overrides
one_more d key name keys b e =
    ap
      (λ o.
        if is_some_str o (str "yes")
        then set_bool name ∷ bool_overrides keys d
        else bool_overrides keys d)
      e
    ∙ ap (λ t. if t then set_bool name ∷ bool_overrides keys d else bool_overrides keys d)
        (yes_written b)
    ∙ listed b name (bool_overrides keys d)
  where
    listed :
        (b : Bool) (name : Str) (rest : List Override)
        → (if b then set_bool name ∷ rest else rest) ≡ if_on b name ++ rest
    listed true name rest = refl
    listed false name rest = refl

no_more : (d : Map Str) → bool_overrides [] d ≡ []
unfolding bool_overrides
no_more d = refl

overrides_of :
    (d : Map Str) (nopull gateway ipv6 dns dco : Bool) (n : ℕ)
    → AreSet d nopull gateway ipv6 dns dco n
    → n ≤ 6
    → apply_overrides d
      ≡ if_on nopull (str "route-nopull")
        ++ (if_on gateway (str "force-default-gateway")
            ++ (if_on ipv6 (str "block-ipv6")
                ++ (if_on dns (str "dns-setup-disabled")
                    ++ (if_on dco (str "dco") ++ log_level n))))
unfolding apply_overrides
overrides_of d nopull gateway ipv6 dns dco n h bound = simp (
  one_more d _ _ _ nopull h.nopull_set,
  one_more d _ _ _ gateway h.gateway_set,
  one_more d _ _ _ ipv6 h.ipv6_set,
  one_more d _ _ _ dns h.dns_set,
  one_more d _ _ _ dco h.dco_set,
  h.level_set,
  level_written n bound,
  no_more d,
  append_assoc,
)

module _ (N : Numbers) where
  open N use {F, as_i64}

  save-AreSet :
      (ct : Str) (st : EditorState F) (c : Connection) (n : ℕ)
      → as_i64 st.or_log_level ≡ pos n
      → AreSet
          (save N ct st c).items
          st.or_route_nopull
          st.or_force_default_gateway
          st.or_block_ipv6
          st.or_dns_setup_disabled
          st.or_dco
          n
  unfolding value_at widget_values general_values device_values compression_values security_values
      tls_values proxy_values misc_values str str_eq
  save-AreSet ct st c n e = record {
    nopull_set = saved_at N ct st c (str "override-route-nopull");
    gateway_set = saved_at N ct st c (str "override-force-default-gateway");
    ipv6_set = saved_at N ct st c (str "override-block-ipv6");
    dns_set = saved_at N ct st c (str "override-dns-setup-disabled");
    dco_set = saved_at N ct st c (str "override-dco");
    level_set =
        saved_at N ct st c (str "override-log-level") ∙ ap (λ z. written (int_or_empty z)) e;
  }

  -- From the settings of an applied dialog the service sets exactly the overrides whose switches
  -- are on, in this order, and the log level, if it is not 0; its row goes up to 6.
  pub update_connection-apply_overrides :
      (st : EditorState F) (c c' : Connection) (n : ℕ)
      → update_connection N st c ≡ applied c'
      → as_i64 st.or_log_level ≡ pos n
      → n ≤ 6
      → apply_overrides c'.items ≡ asked_for st n
  update_connection-apply_overrides st c c' n h level bound =
      ap (λ x. apply_overrides x.items) (update_connection-applied N st c c' h).1
      ∙ overrides_of _ _ _ _ _ _ n (save-AreSet (selected_id st.contype) st c n level) bound

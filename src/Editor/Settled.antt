-- ===== src/Editor/Settled.antt =====
-- Settings in the form that the dialog writes, and what each of its rows writes for them.
use nm_openvpn.Base.{List, Str, [], arith, false, none, some, str, sym, ◌∙◌, ◌∷◌, ◌≡◌, ◌≤◌, ℕ}
use nm_openvpn.Base.Lists.{All, All-append}
use nm_openvpn.Base.Maps.{Map}
use nm_openvpn.Editor.Widgets.{Numbers, contypes, selected_id, unwrap_or}
use nm_openvpn.Editor.Tree.{build_widget_tree, spin, text, is_on, timer_secs_max}
use nm_openvpn.Editor.Apply.{
  from_id, int_or_empty, widget_values, general_values, device_values, compression_values,
  security_values, tls_values, proxy_values, misc_values,
}
use nm_openvpn.Editor.Combo.{selected-combo_row}
use nm_openvpn.Editor.Rows.{
  IsFaithful, IsHeld, IsMssfix, IsNumber, IsSwitch, kept_row, list_row, mssfix_row, number_row,
  switch_row, text_row, written_long,
}
use nm_openvpn.Editor.Sets.{written}

-- The keys of the rows with a number up to 65535, with a time, and with a switch.
abbrev pub number_keys : List Str
number_keys =
    str "port" ∷ str "tunnel-mtu" ∷ str "fragment-size" ∷ str "keysize" ∷ str "proxy-port" ∷ []

abbrev pub timer_keys : List Str
timer_keys = str "ping" ∷ str "ping-restart" ∷ str "reneg-seconds" ∷ str "connect-timeout" ∷ []

abbrev pub switch_keys : List Str
switch_keys =
    str "proto-tcp"
    ∷ str "tls-version-min-or-highest"
    ∷ str "override-route-nopull"
    ∷ str "override-force-default-gateway"
    ∷ str "override-block-ipv6"
    ∷ str "override-dns-setup-disabled"
    ∷ str "override-dco"
    ∷ []

-- Settings of a connection of type `ct` in the form that the dialog writes: no empty text, the
-- numbers in range and in decimal, a switch either unset or `yes`, and nothing under the keys that
-- its type does not use.
pub record IsSettled (ct : Str) (d : Map Str) : Type 0 where
  pub held : (k : Str) → IsHeld (d k)
  pub type_is : d (str "connection-type") ≡ some ct
  pub numbers : All (λ k. IsNumber 65535 (d k)) number_keys
  pub timers : All (λ k. IsNumber timer_secs_max (d k)) timer_keys
  pub switches : All (λ k. IsSwitch (d k)) switch_keys
  pub log_level : IsNumber 6 (d (str "override-log-level"))
  pub mssfix : IsMssfix (d (str "mssfix"))
  pub ca : (from_id ct).tls_like ≡ false → d (str "ca") ≡ none
  pub cert : (from_id ct).needs_user_cert ≡ false → d (str "cert") ≡ none
  pub key : (from_id ct).needs_user_cert ≡ false → d (str "key") ≡ none
  pub username : (from_id ct).needs_password ≡ false → d (str "username") ≡ none
  pub static_key : (from_id ct).is_static_key ≡ false → d (str "static-key") ≡ none
  pub direction : (from_id ct).is_static_key ≡ false → d (str "static-key-direction") ≡ none

pub held_type : (ct : Str) (d : Map Str) → IsSettled ct d → IsHeld (some ct)
held_type ct d h = rw h.type_is at (h.held (str "connection-type"))

type_row : (ct : Str) (d : Map Str) → IsSettled ct d → written ct ≡ d (str "connection-type")
type_row ct d h = written_long ct (held_type ct d h) ∙ sym h.type_is

module _ (N : Numbers) (L : IsFaithful N) where
  open N use {as_i64, of_nat}

  number_of :
      (d : Map Str) (k : Str) {top : ℕ}
      → top ≤ timer_secs_max
      → IsHeld (d k)
      → IsNumber top (d k)
      → written (int_or_empty (as_i64 (spin N d k top))) ≡ d k
  unfolding spin
  number_of d k {top} bound held h = number_row N L top (d k) bound held h

  pub opened_type :
      (ct : Str) (d : Map Str) → IsSettled ct d → selected_id (build_widget_tree N d).contype ≡ ct
  unfolding build_widget_tree unwrap_or
  opened_type ct d h = rw h.type_is (selected-combo_row contypes ct (held_type ct d h).0)

  general_written :
      (ct : Str) (d : Map Str)
      → IsSettled ct d
      → All (λ kv. written kv.1 ≡ d kv.0) (general_values N ct (build_widget_tree N d))
  unfolding general_values build_widget_tree is_on
  general_written ct d h = (
    type_row ct d h,
    (
      text_row d (str "remote") (h.held (str "remote")),
      (
        number_of d (str "port") (omega arith) (h.held (str "port")) h.numbers.0,
        (
          kept_row _ _ _ h.ca (text_row d (str "ca") (h.held (str "ca"))),
          (
            kept_row _ _ _ h.cert (text_row d (str "cert") (h.held (str "cert"))),
            (
              kept_row _ _ _ h.key (text_row d (str "key") (h.held (str "key"))),
              (
                kept_row _ _ _ h.username (text_row d (str "username") (h.held (str "username"))),
                (
                  kept_row _ _ _ h.static_key
                      (text_row d (str "static-key") (h.held (str "static-key"))),
                  (
                    kept_row _ _ _ h.direction (
                        list_row _ (d (str "static-key-direction"))
                          (h.held (str "static-key-direction"))),
                    (
                      text_row d (str "nm-openvpn3-profile") (h.held (str "nm-openvpn3-profile")),
                      tt,
                    ),
                  ),
                ),
              ),
            ),
          ),
        ),
      ),
    ),
  )

  device_written :
      (ct : Str) (d : Map Str)
      → IsSettled ct d
      → All (λ kv. written kv.1 ≡ d kv.0) (device_values N (build_widget_tree N d))
  unfolding device_values build_widget_tree is_on text
  device_written ct d h = (
    text_row d (str "dev") (h.held (str "dev")),
    (
      list_row _ (d (str "dev-type")) (h.held (str "dev-type")),
      (
        switch_row (d (str "proto-tcp")) h.switches.0,
        (
          number_of d (str "tunnel-mtu") (omega arith) (h.held (str "tunnel-mtu")) h.numbers.1.0,
          (
            mssfix_row N L (d (str "mssfix")) (h.held (str "mssfix")) h.mssfix,
            (
              number_of d (str "fragment-size") (omega arith) (h.held (str "fragment-size"))
                  h.numbers.1.1.0,
              (
                number_of d (str "ping") (omega arith) (h.held (str "ping")) h.timers.0,
                (
                  number_of d (str "ping-restart") (omega arith) (h.held (str "ping-restart"))
                      h.timers.1.0,
                  (
                    number_of d (str "reneg-seconds") (omega arith) (h.held (str "reneg-seconds"))
                        h.timers.1.1.0,
                    (
                      number_of d (str "connect-timeout") (omega arith)
                          (h.held (str "connect-timeout")) h.timers.1.1.1.0,
                      tt,
                    ),
                  ),
                ),
              ),
            ),
          ),
        ),
      ),
    ),
  )

  compression_written :
      (ct : Str) (d : Map Str)
      → IsSettled ct d
      → All (λ kv. written kv.1 ≡ d kv.0) (compression_values N (build_widget_tree N d))
  unfolding compression_values build_widget_tree is_on
  compression_written ct d h = (
    list_row _ (d (str "allow-compression")) (h.held (str "allow-compression")),
    (
      list_row _ (d (str "comp-lzo")) (h.held (str "comp-lzo")),
      (list_row _ (d (str "compress")) (h.held (str "compress")), tt),
    ),
  )

  security_written :
      (ct : Str) (d : Map Str)
      → IsSettled ct d
      → All (λ kv. written kv.1 ≡ d kv.0) (security_values N (build_widget_tree N d))
  unfolding security_values build_widget_tree is_on
  security_written ct d h = (
    list_row _ (d (str "cipher")) (h.held (str "cipher")),
    (
      text_row d (str "data-ciphers") (h.held (str "data-ciphers")),
      (
        list_row _ (d (str "data-ciphers-fallback")) (h.held (str "data-ciphers-fallback")),
        (
          text_row d (str "tls-cipher") (h.held (str "tls-cipher")),
          (
            list_row _ (d (str "auth")) (h.held (str "auth")),
            (
              number_of d (str "keysize") (omega arith) (h.held (str "keysize")) h.numbers.1.1.1.0,
              tt,
            ),
          ),
        ),
      ),
    ),
  )

  tls_written :
      (ct : Str) (d : Map Str)
      → IsSettled ct d
      → All (λ kv. written kv.1 ≡ d kv.0) (tls_values N (build_widget_tree N d))
  unfolding tls_values build_widget_tree is_on
  tls_written ct d h = (
    list_row _ (d (str "tls-version-min")) (h.held (str "tls-version-min")),
    (
      switch_row (d (str "tls-version-min-or-highest")) h.switches.1.0,
      (
        list_row _ (d (str "tls-version-max")) (h.held (str "tls-version-max")),
        (
          text_row d (str "verify-x509-name") (h.held (str "verify-x509-name")),
          (
            list_row _ (d (str "remote-cert-tls")) (h.held (str "remote-cert-tls")),
            (
              list_row _ (d (str "ns-cert-type")) (h.held (str "ns-cert-type")),
              (
                text_row d (str "ta") (h.held (str "ta")),
                (
                  list_row _ (d (str "ta-dir")) (h.held (str "ta-dir")),
                  (
                    text_row d (str "tls-crypt") (h.held (str "tls-crypt")),
                    (text_row d (str "tls-crypt-v2") (h.held (str "tls-crypt-v2")), tt),
                  ),
                ),
              ),
            ),
          ),
        ),
      ),
    ),
  )

  proxy_written :
      (ct : Str) (d : Map Str)
      → IsSettled ct d
      → All (λ kv. written kv.1 ≡ d kv.0) (proxy_values N (build_widget_tree N d))
  unfolding proxy_values build_widget_tree is_on
  proxy_written ct d h = (
    list_row _ (d (str "proxy-type")) (h.held (str "proxy-type")),
    (
      text_row d (str "proxy-server") (h.held (str "proxy-server")),
      (
        number_of d (str "proxy-port") (omega arith) (h.held (str "proxy-port"))
            h.numbers.1.1.1.1.0,
        (text_row d (str "http-proxy-username") (h.held (str "http-proxy-username")), tt),
      ),
    ),
  )

  misc_written :
      (ct : Str) (d : Map Str)
      → IsSettled ct d
      → All (λ kv. written kv.1 ≡ d kv.0) (misc_values N (build_widget_tree N d))
  unfolding misc_values build_widget_tree is_on
  misc_written ct d h = (
    switch_row (d (str "override-route-nopull")) h.switches.1.1.0,
    (
      switch_row (d (str "override-force-default-gateway")) h.switches.1.1.1.0,
      (
        switch_row (d (str "override-block-ipv6")) h.switches.1.1.1.1.0,
        (
          switch_row (d (str "override-dns-setup-disabled")) h.switches.1.1.1.1.1.0,
          (
            switch_row (d (str "override-dco")) h.switches.1.1.1.1.1.1.0,
            (
              number_of d (str "override-log-level") (omega arith)
                  (h.held (str "override-log-level")) h.log_level,
              tt,
            ),
          ),
        ),
      ),
    ),
  )

  pub rows_written :
      (ct : Str) (d : Map Str)
      → IsSettled ct d
      → All (λ kv. written kv.1 ≡ d kv.0) (widget_values N ct (build_widget_tree N d))
  unfolding widget_values
  rows_written ct d h = All-append _ _ _ (general_written ct d h) (
      All-append _ _ _ (device_written ct d h) (
        All-append _ _ _ (compression_written ct d h) (
          All-append _ _ _ (security_written ct d h) (
            All-append _ _ _ (tls_written ct d h)
              (All-append _ _ _ (proxy_written ct d h) (misc_written ct d h))))))

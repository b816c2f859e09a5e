-- ===== src/Import/Items.antt =====
-- Where the items of an imported connection come from.
use nm_openvpn.Base.{
  arith, Bool-cases, List, Option, Str, [], ap, false, if◌then◌else◌, inl, inr, none, refl, some,
  str, str_eq, str_eq_iff, sym, true, ◌&&◌, ◌∙◌, ◌∷◌, ◌≡◌, ◌⊎◌,
}
use nm_openvpn.Base.Maps.{Map, empty, insert}
use nm_openvpn.Ovpn.Defs.{OvpnConfig}
use nm_openvpn.Text.{is_empty, lines, trim}
use nm_openvpn.Import.Build.{as_nm_data}
use nm_openvpn.Import.Connection.{
  Imported, OvpnPath, System, add_data_item, connection_of, is_c_string, items_of, next_line,
  only_items, remove, safe_name, take_contents, take_credentials, pin, stem_or_default,
  take_authfile,
}
use nm_openvpn.Import.Blobs.{IsWritten, chosen, insert_cases, write_blobs-cases}

-- Where an item of an import comes from: a setting that the directives give, but for the path of the
-- file with the proxy's credentials; the first line of that file; a blob that has been written; or
-- the pin.
pub data IsItem (sys : System) (path : OvpnPath) (config : OvpnConfig) (k v : Str) : Type 0 where
  parsed :
      as_nm_data config k ≡ some v
      → str_eq k (str "http-proxy-auth-file") ≡ false
      → IsItem sys path config k v
  proxy_user :
      (name contents l : Str) (ls : List Str)
      → k ≡ str "http-proxy-username"
      → as_nm_data config (str "http-proxy-auth-file") ≡ some name
      → safe_name name ≡ true
      → sys.read_beside name ≡ some contents
      → lines contents ≡ l ∷ ls
      → v ≡ trim l
      → IsItem sys path config k v
  written :
      (dir : Str)
      → sys.secure_cert_dir ≡ some dir
      → IsWritten sys dir (stem_or_default path.file_stem) config.directives k v
      → IsItem sys path config k v
  pinned : k ≡ str "nm-openvpn3-profile" → path.shown ≡ some v → IsItem sys path config k v

items_of-cases : (d : Map Str) (k v : Str) → items_of d k ≡ some v → d k ≡ some v
unfolding items_of only_items
items_of-cases d k v = only (d k)
  where
    only : (o : Option Str) → only_items k o ≡ some v → o ≡ some v
    only none h = h
    only (some w) h = ground (arith, h)

remove_cases :
    (key : Str) (d : Map Str) (k v : Str)
    → remove key d k ≡ some v
    → (str_eq k key ≡ false) × (d k ≡ some v)
unfolding remove
remove_cases key d k v h = elim (Bool-cases (str_eq k key)) [
  | inr other ↦ (other, sym (ap (λ t. if t then none else d k) other) ∙ h)
  | inl same ↦ absurd (let e = sym (ap (λ t. if t then none else d k) same) ∙ h in cc)
]

-- The trimmed first line, where it is not empty.
first_line :
    (ls : List Str) (v : Str)
    → is_empty (next_line ls) ≡ false
    → v ≡ next_line ls
    → (l : Str) × (rest : List Str) × (ls ≡ l ∷ rest) × (v ≡ trim l)
unfolding next_line is_empty
first_line [] v h e = cc
first_line (l ∷ ls) v h e = (l, ls, refl, e)

module _ (sys : System) (path : OvpnPath) (config : OvpnConfig) (name k v : Str)
    (named : as_nm_data config (str "http-proxy-auth-file") ≡ some name)
    (safe : safe_name name ≡ true) where
  abbrev Left : Type 0
  Left = remove (str "http-proxy-auth-file") (as_nm_data config) k ≡ some v

  left-IsItem : Left → IsItem sys path config k v
  left-IsItem h =
      let (other, given) = remove_cases (str "http-proxy-auth-file") (as_nm_data config) k v h in
      parsed given other

  abbrev rest : Map Str
  rest = remove (str "http-proxy-auth-file") (as_nm_data config)

  abbrev user : Str → Map Str
  user contents = insert (str "http-proxy-username") (next_line (lines contents)) rest

  user-IsItem :
      (contents : Str)
      → sys.read_beside name ≡ some contents
      → is_empty (next_line (lines contents)) ≡ false
      → (((k ≡ str "http-proxy-username") × (v ≡ next_line (lines contents))) ⊎ (rest k ≡ some v))
      → IsItem sys path config k v
  user-IsItem contents at filled (inr old) = left-IsItem old
  user-IsItem contents at filled (inl (key, e)) =
      let (l, ls, split, trimmed) = first_line (lines contents) v filled e in
      proxy_user name contents l ls key named safe at split trimmed

  credentials-IsItem :
      (contents : Str)
      → sys.read_beside name ≡ some contents
      → (take_credentials
            (lines contents)
            (remove (str "http-proxy-auth-file") (as_nm_data config))).data'
          k
        ≡ some v
      → IsItem sys path config k v
  unfolding take_credentials
  credentials-IsItem contents at h = elim (Bool-cases (is_empty (next_line (lines contents)))) [
    | inl blank ↦ left-IsItem (sym (ap (λ t. (if t then rest else user contents) k) blank) ∙ h)
    | inr filled ↦ user-IsItem contents at filled (
        insert_cases (str "http-proxy-username") (next_line (lines contents)) rest k v
          (sym (ap (λ t. (if t then rest else user contents) k) filled) ∙ h))
  ]

  contents-IsItem :
      (o : Option Str)
      → sys.read_beside name ≡ o
      → (take_contents o (remove (str "http-proxy-auth-file") (as_nm_data config))).data' k ≡ some v
      → IsItem sys path config k v
  unfolding take_contents
  contents-IsItem none at h = left-IsItem h
  contents-IsItem (some contents) at h = credentials-IsItem contents at h

authfile-IsItem :
    (sys : System) (path : OvpnPath) (config : OvpnConfig) (k v : Str) (o : Option Str)
    → as_nm_data config (str "http-proxy-auth-file") ≡ o
    → (take_authfile sys o (as_nm_data config)).data' k ≡ some v
    → IsItem sys path config k v
unfolding take_authfile
authfile-IsItem sys path config k v none e h =
    elim (Bool-cases (str_eq k (str "http-proxy-auth-file"))) [
      | inr other ↦ parsed h other
      | inl same ↦
          let key = (str_eq_iff k (str "http-proxy-auth-file")).0 same in
          absurd (let here = ap (as_nm_data config) key in cc)
    ]
authfile-IsItem sys path config k v (some name) e h = elim (Bool-cases (safe_name name)) [
  | inl safe ↦
      contents-IsItem sys path config name k v e safe (sys.read_beside name) refl
        (sym (ap (λ t. (if t then taken else untaken).data' k) safe) ∙ h)
  | inr unsafe ↦
      let h' : untaken.data' k ≡ some v =
        sym (ap (λ t. (if t then taken else untaken).data' k) unsafe) ∙ h in
      let (other, given) = remove_cases (str "http-proxy-auth-file") (as_nm_data config) k v h' in
      parsed given other
]
  where
    untaken : Imported
    untaken = record {
      data' = remove (str "http-proxy-auth-file") (as_nm_data config);
      secrets = empty;
    }

    taken : Imported
    taken =
        take_contents (sys.read_beside name)
          (remove (str "http-proxy-auth-file") (as_nm_data config))

pin_cases :
    (o : Option Str) (items : Map Str) (j v : Str)
    → pin o items j ≡ some v
    → ((j ≡ str "nm-openvpn3-profile") × (o ≡ some v)) ⊎ (items j ≡ some v)
unfolding pin add_data_item
pin_cases none items j v h = inr h
pin_cases (some p) items j v h =
    elim (chosen (is_c_string (str "nm-openvpn3-profile") && is_c_string p)
      (insert (str "nm-openvpn3-profile") p items) items j v h) [
        | inr old ↦ inr old
        | inl (whole, new) ↦ elim (insert_cases (str "nm-openvpn3-profile") p items j v new) [
          | inl (k, e) ↦ inl (k, ap some (sym e))
          | inr old ↦ inr old
        ]
      ]

-- Every item of an imported connection is a setting that the directives give, never the path of the
-- file with the proxy's credentials, or the trimmed first line of that file under
-- http-proxy-username, or the path of the imported file under nm-openvpn3-profile, or the path of an
-- inline blob that was written without an error to the private directory, under the name of the
-- blob or, for pkcs12, under ca, cert or key.
pub connection_of-IsItem :
    (sys : System) (path : OvpnPath) (config : OvpnConfig) (k v : Str)
    → (connection_of sys path config).items k ≡ some v
    → IsItem sys path config k v
unfolding connection_of
connection_of-IsItem sys path config k v h = elim (pin_cases path.shown _ k v h) [
  | inl (e, shown) ↦ pinned e shown
  | inr left ↦ elim (write_blobs-cases sys sys.secure_cert_dir _ config.directives _ k v left) [
    | inl (dir, e, w) ↦ written dir e w
    | inr old ↦
        authfile-IsItem sys path config k v (as_nm_data config (str "http-proxy-auth-file")) refl
          (items_of-cases _ k v old)
  ]
]

-- ===== src/Prepare/Imported.antt =====
-- From the file of an import to the config that openvpn3 gets.
use nm_openvpn.Base.{Str, ap, refl, some, str, sym, ℕ, ◌∙◌, ◌≡◌, ◌≤◌, true}
use nm_openvpn.Ovpn.Defs.{OvpnConfig, Result, err, ok, ◌>>=◌}
use nm_openvpn.Ovpn.Parse.{parse}
use nm_openvpn.Secrets.Settings.{Conversions, Settings, read, vpn_data}
use nm_openvpn.Import.BlobName.{as_bytes}
use nm_openvpn.Import.Connection.{
  Connection, OvpnPath, System, connection_of, is_c_string, ovpn_text_to_connection,
}
use nm_openvpn.Import.Pinned.{pin_self}
use nm_openvpn.Files.Defs.{Disk, count, file}
use nm_openvpn.Files.Read.{Moment, max_profile_bytes}
use nm_openvpn.Files.Again.{IsQuiet, read_written}
use nm_openvpn.Prepare.{config_name, prepare, prepare_read, profile_from, ready, ready_if_read}

connection_of-items :
    (sys : System) (path : OvpnPath) (config : OvpnConfig) (p : Str)
    → path.shown ≡ some p
    → is_c_string p ≡ true
    → (connection_of sys path config).items (str "nm-openvpn3-profile") ≡ some p
unfolding connection_of
connection_of-items sys path config p shown whole = rw shown (pin_self p _ whole)

connected :
    (sys : System) (path : OvpnPath) (r : Result OvpnConfig) (p : Str) (c : Connection)
    → (do config ← r; ok (connection_of sys path config)) ≡ ok c
    → path.shown ≡ some p
    → is_c_string p ≡ true
    → c.items (str "nm-openvpn3-profile") ≡ some p
connected sys path (ok config) p c h shown whole =
    let same : connection_of sys path config ≡ c = cc in
    ap (λ x. x.items (str "nm-openvpn3-profile")) (sym same)
    ∙ connection_of-items sys path config p shown whole
connected sys path (err e) p c h shown whole = cc

imported-items :
    (sys : System) (path : OvpnPath) (t p : Str) (c : Connection)
    → ovpn_text_to_connection sys path t ≡ ok c
    → path.shown ≡ some p
    → is_c_string p ≡ true
    → c.items (str "nm-openvpn3-profile") ≡ some p
unfolding ovpn_text_to_connection
imported-items sys path t p c = connected sys path (parse t) p c

-- Import a file whose path can be kept, UTF-8 without a NUL, and connect: if the service reads the
-- file as it was imported, and it is no longer than 1 MiB, then openvpn3 gets its very text.
pub prepare-ovpn_text_to_connection :
    {V : Type 0} (ops : Conversions V) (sys : System) (path : OvpnPath) (t p : Str) (mode : ℕ)
    (c : Connection) (m : Moment) (disk : Disk) (settings : Settings V)
    → ovpn_text_to_connection sys path t ≡ ok c
    → path.shown ≡ some p
    → is_c_string p ≡ true
    → vpn_data ops settings ≡ read c.items
    → disk p ≡ some (file mode (as_bytes t))
    → IsQuiet m t
    → count (as_bytes t) ≤ max_profile_bytes
    → prepare ops m disk settings ≡ ready (config_name ops settings c.items) t
unfolding prepare prepare_read profile_from ready_if_read
prepare-ovpn_text_to_connection ops sys path t p mode c m disk settings made shown whole given at q
      h =
    rw
      (
        given,
        imported-items sys path t p c made shown whole,
        at,
        read_written m max_profile_bytes mode t q h,
      )
      refl

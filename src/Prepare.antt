-- ===== src/Prepare.antt =====
-- nm-openvpn3-service/src/plugin.rs: what `do_connect` hands to openvpn3, the name and the text of a
-- config. The steps of Coord say when.
pub mod Source
pub mod Imported
use nm_openvpn.Base.{Option, Str, none, some, str}
use nm_openvpn.Base.Maps.{Map}
use nm_openvpn.Profile.Build.{build_profile_string}
use nm_openvpn.Secrets.Settings.{
  Conversions, Read, Settings, SettingsError, connection_id, failed, read, split_vpn, vpn_data,
}
use nm_openvpn.Files.Defs.{Disk}
use nm_openvpn.Files.Read.{Moment, ReadError, Reading, error, max_profile_bytes, read_capped, text}

pub data Prepared : Type 0 where
  bad_settings : SettingsError → Prepared
  bad_profile : ReadError → Prepared
  no_profile : Prepared
  ready : (name profile : Str) → Prepared

-- `connection-name`, or the name of the connection, or the fixed one
unfoldable pub name_or_id : Option Str → Option Str → Str
name_or_id (some name) id = name
name_or_id none (some id) = id
name_or_id none none = str "nm-openvpn3-rust"

unfoldable pub ready_if_read : Str → Reading → Prepared
ready_if_read name (text s) = ready name s
ready_if_read name (error e) = bad_profile e

unfoldable pub ready_if_built : Str → Option Str → Prepared
ready_if_built name none = no_profile
ready_if_built name (some s) = ready name s

-- The profile from the file that the settings name, where they name one, or else from the settings.
unfoldable pub profile_from : Moment → Disk → Str → Option Str → Map Str → Map Str → Prepared
profile_from m disk name (some path) data_map secret_map =
    ready_if_read name (read_capped m max_profile_bytes (disk path))
profile_from m disk name none data_map secret_map =
    ready_if_built name (build_profile_string data_map secret_map)

module _ {V : Type 0} (ops : Conversions V) where
  unfoldable pub config_name : Settings V → Map Str → Str
  config_name settings d = name_or_id (d (str "connection-name")) (connection_id ops settings)

  unfoldable pub prepare_read : Moment → Disk → Settings V → Read (Map Str) → Prepared
  prepare_read m disk settings (failed e) = bad_settings e
  prepare_read m disk settings (read d) =
      let (data_map, secret_map) = split_vpn ops settings in
      profile_from m disk (config_name settings d) (d (str "nm-openvpn3-profile")) data_map
        secret_map

  unfoldable pub prepare : Moment → Disk → Settings V → Prepared
  prepare m disk settings = prepare_read m disk settings (vpn_data ops settings)

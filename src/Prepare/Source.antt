-- ===== src/Prepare/Source.antt =====
-- Where the profile of a session comes from.
use nm_openvpn.Base.{Option, Str, ap, none, refl, some, str, ℕ, ◌≡◌, ◌≤◌, List}
use nm_openvpn.Base.Lists.{All}
use nm_openvpn.Base.Maps.{Map}
use nm_openvpn.Text.{lines}
use nm_openvpn.Profile.Build.{build_for, build_profile_string}
use nm_openvpn.Profile.Values.{get}
use nm_openvpn.Profile.Clean.{IsSafeLine}
use nm_openvpn.Profile.Safe.{build_profile_string-IsSafeLine}
use nm_openvpn.Secrets.Settings.{
  Conversions, Read, Settings, SettingsError, failed, read, split_vpn, vpn_data,
}
use nm_openvpn.Secrets.Agree.{split_vpn-vpn_data}
use nm_openvpn.Files.Defs.{Disk, count, file}
use nm_openvpn.Files.Read.{Moment, ReadError, Reading, error, max_profile_bytes, read_capped, text}
use nm_openvpn.Files.Bounded.{read_capped-text}
use nm_openvpn.Prepare.{
  Prepared, bad_profile, bad_settings, config_name, no_profile, prepare, prepare_read, profile_from,
  ready, ready_if_built, ready_if_read,
}

-- What becomes of a Connect with the settings `d`: the profile is the text of the named file, a
-- regular one within the bound, or, if none is named, one that is built and has only safe lines.
pub data IsFrom (m : Moment) (disk : Disk) (d : Map Str) (name : Str) (r : Prepared) : Type 0 where
  pinned :
      (path s : Str) (mode : ℕ) (bytes : List ℕ)
      → d (str "nm-openvpn3-profile") ≡ some path
      → disk path ≡ some (file mode bytes)
      → m.decode (m.later bytes) ≡ some s
      → count (m.later bytes) ≤ max_profile_bytes
      → r ≡ ready name s
      → IsFrom m disk d name r
  unreadable :
      (path : Str) (e : ReadError)
      → d (str "nm-openvpn3-profile") ≡ some path
      → read_capped m max_profile_bytes (disk path) ≡ error e
      → r ≡ bad_profile e
      → IsFrom m disk d name r
  built :
      (gateways s : Str)
      → d (str "nm-openvpn3-profile") ≡ none
      → get d (str "remote") ≡ some gateways
      → All IsSafeLine (lines s)
      → r ≡ ready name s
      → IsFrom m disk d name r
  no_remote :
      d (str "nm-openvpn3-profile") ≡ none
      → get d (str "remote") ≡ none
      → r ≡ no_profile
      → IsFrom m disk d name r

pub data IsPrepared {V : Type 0} (ops : Conversions V) (m : Moment) (disk : Disk)
    (settings : Settings V) (r : Prepared) : Type 0 where
  not_read :
      (e : SettingsError)
      → vpn_data ops settings ≡ failed e
      → r ≡ bad_settings e
      → IsPrepared ops m disk settings r
  was_read :
      (d : Map Str)
      → vpn_data ops settings ≡ read d
      → IsFrom m disk d (config_name ops settings d) r
      → IsPrepared ops m disk settings r

read-IsFrom :
    (m : Moment) (disk : Disk) (d : Map Str) (name path : Str) (o : Reading)
    → d (str "nm-openvpn3-profile") ≡ some path
    → read_capped m max_profile_bytes (disk path) ≡ o
    → IsFrom m disk d name (ready_if_read name o)
unfolding ready_if_read
read-IsFrom m disk d name path (text s) e h =
    let (mode, bytes, at, decoded, bound) = read_capped-text m max_profile_bytes (disk path) s h in
    pinned path s mode bytes e at decoded bound refl
read-IsFrom m disk d name path (error x) e h = unreadable path x e h refl

built-IsFrom :
    (m : Moment) (disk : Disk) (d secrets : Map Str) (name : Str) (o : Option Str)
    → d (str "nm-openvpn3-profile") ≡ none
    → get d (str "remote") ≡ o
    → IsFrom m disk d name (ready_if_built name (build_profile_string d secrets))
unfolding ready_if_built build_profile_string build_for
built-IsFrom m disk d secrets name none e h = rw h (no_remote e h refl)
built-IsFrom m disk d secrets name (some gateways) e h =
    let (out, made, safe) = build_profile_string-IsSafeLine d secrets gateways h in
    built gateways out e h safe (ap (ready_if_built name) made)

profile-IsFrom :
    (m : Moment) (disk : Disk) (d secrets : Map Str) (name : Str) (o : Option Str)
    → d (str "nm-openvpn3-profile") ≡ o
    → IsFrom m disk d name (profile_from m disk name o d secrets)
unfolding profile_from
profile-IsFrom m disk d secrets name none e = built-IsFrom m disk d secrets name _ e refl
profile-IsFrom m disk d secrets name (some path) e = read-IsFrom m disk d name path _ e refl

module _ {V : Type 0} (ops : Conversions V) (cloned : (v : V) → ops.try_clone v ≡ some v) where
  read-IsPrepared :
      (m : Moment) (disk : Disk) (settings : Settings V) (o : Read (Map Str))
      → vpn_data ops settings ≡ o
      → IsPrepared ops m disk settings (prepare_read ops m disk settings o)
  unfolding prepare_read
  read-IsPrepared m disk settings (failed e) h = not_read e h refl
  read-IsPrepared m disk settings (read d) h = was_read d h (
      rw (split_vpn-vpn_data ops settings d cloned h)
        (profile-IsFrom m disk d (split_vpn ops settings).1 (config_name ops settings d) _ refl))

  -- Where D-Bus values can be cloned, a Connect hands to openvpn3 the text of the file that the
  -- settings name, a regular one of at most 1 MiB that stands at that path itself, where the path
  -- does not end in a link (one among its directories is followed), or, if they name none, a
  -- profile of which every line begins with one of the listed directives or is script-security 2.
  -- It fails exactly if the settings cannot be read, the named file cannot, or no remote is set.
  pub prepare-IsPrepared :
      (m : Moment) (disk : Disk) (settings : Settings V)
      → IsPrepared ops m disk settings (prepare ops m disk settings)
  unfolding prepare
  prepare-IsPrepared m disk settings = read-IsPrepared m disk settings (vpn_data ops settings) refl

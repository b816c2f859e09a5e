-- ===== src/Tests/Disks.antt =====
-- Applications of the results on files.
use nm_openvpn.Base.{List, Str, arith, false, none, refl, some, str, str_eq, true, ℕ, ◌≡◌, ◌≤◌}
use nm_openvpn.Base.Maps.{empty, insert}
use nm_openvpn.Text.{ends_with, is_ascii_alphanumeric, is_empty}
use nm_openvpn.Profile.Values.{Data}
use nm_openvpn.Ovpn.Defs.{ok, ◌>>=◌}
use nm_openvpn.Export.Exported.{exported}
use nm_openvpn.Export.Pinned.{connection_to_ovpn_text, pinned_text, read_pinned, text_or_settings}
use nm_openvpn.Import.BlobName.{as_bytes, utf8}
use nm_openvpn.Import.Connection.{OvpnPath, System, connection_of}
use nm_openvpn.Files.Defs.{Disk, count, file, is_directory, is_there, take}
use nm_openvpn.Files.Read.{
  Moment, checked, max_profile_bytes, ok_text, read_buffer, read_capped, read_profile_securely,
  text,
}
use nm_openvpn.Files.Write.{
  FilePath, Weather, clean_up, create, create_after, erase, export_connection_to_path, fill,
  join_path, move, plant, remove_file, rename, rename_after, tmp_path, whole, write_blob_securely,
}
use nm_openvpn.Files.Plugin.{export_to_file, import_from_file, import_result}
use nm_openvpn.Files.Atomic.{Ends, export_connection_to_path-Ends}
use nm_openvpn.Files.Bounded.{read_capped-text}
use nm_openvpn.Files.Again.{IsQuiet, export_text, import_from_file-export_to_file}

-- The disk holds a pinned profile.
abbrev pinned : Str
pinned = str "client\n"

abbrev home : Disk
home = insert (str "/p.ovpn") (file 420 (as_bytes pinned)) empty

-- A read of ASCII text that nothing disturbs.
abbrev quiet_read : Moment
quiet_read = record { fails = false; later = λ bytes. bytes; decode = λ bytes. some bytes }

abbrev target : FilePath
target = record { parent = str "/tmp"; file_name = str "a.ovpn" }

abbrev calm : Weather
calm = record {
  remove_fails = false;
  planted = none;
  open_fails = false;
  stops = none;
  sync_fails = false;
  rename_fails = false;
  cleanup_fails = false;
}

-- The disk is full after two bytes.
abbrev full_disk : Weather
full_disk = record calm { stops = some 2 }

apart : str_eq (str "/p.ovpn") (tmp_path target) ≡ false
unfolding str str_eq tmp_path join_path is_empty ends_with
apart = refl

export_connection_to_path-Ends_example :
    Ends
      (tmp_path target)
      (whole target)
      (as_bytes pinned)
      (str "/p.ovpn")
      home
      (export_connection_to_path full_disk pinned target home)
export_connection_to_path-Ends_example =
    export_connection_to_path-Ends full_disk pinned target home (str "/p.ovpn") apart

read_example :
    read_capped quiet_read max_profile_bytes (some (file 420 (as_bytes pinned))) ≡ text pinned
unfolding read_capped read_buffer checked max_profile_bytes take count as_bytes utf8 str
read_example = refl

read_capped-text_example :
    (mode : ℕ) × (bytes : List ℕ) × (some (file 420 (as_bytes pinned)) ≡ some (file mode bytes))
    × (some bytes ≡ some pinned)
    × (count bytes ≤ max_profile_bytes)
read_capped-text_example =
    read_capped-text quiet_read max_profile_bytes (some (file 420 (as_bytes pinned))) pinned
      read_example

-- A connection that is pinned to the profile.
abbrev pinned_items : Data
pinned_items = insert (str "nm-openvpn3-profile") (str "/p.ovpn") empty

exported_text : export_text quiet_read pinned_items home ≡ pinned
unfolding connection_to_ovpn_text pinned_text read_pinned text_or_settings read_profile_securely
    ok_text read_capped read_buffer checked max_profile_bytes take count as_bytes utf8 str insert
    str_eq is_empty
exported_text = refl

export_succeeds : (export_to_file quiet_read calm pinned_items target home).succeeded ≡ true
unfolding export_to_file export_connection_to_path clean_up rename_after rename write_blob_securely
    create_after create fill plant remove_file erase move is_directory is_there insert str str_eq
    tmp_path whole join_path is_empty ends_with
export_succeeds = refl

pinned-IsQuiet : IsQuiet quiet_read pinned
unfolding as_bytes utf8 str
pinned-IsQuiet = record { succeeds = refl; unchanged = refl; decoded = refl }

pinned-short : count (as_bytes pinned) ≤ max_profile_bytes
unfolding as_bytes utf8 str count max_profile_bytes
pinned-short = omega arith

abbrev other_system : System
other_system = record {
  read_beside = λ name. none;
  secure_cert_dir = none;
  write_blob = λ path bytes. false;
  decode = λ s. none;
  is_alphanumeric = is_ascii_alphanumeric;
}

abbrev shown_target : OvpnPath
shown_target = record { file_stem = some (str "a"); shown = some (whole target) }

import_from_file-export_to_file_example :
    import_from_file other_system quiet_read shown_target
      (export_to_file quiet_read calm pinned_items target home).disk
    ≡ import_result (
        exported
          (pinned_text (λ q. read_profile_securely quiet_read (home q)) pinned_items)
          pinned_items
        >>= λ config. ok (connection_of other_system shown_target config))
import_from_file-export_to_file_example =
    import_from_file-export_to_file other_system quiet_read quiet_read calm pinned_items target home
      shown_target refl export_succeeds (rw exported_text pinned-IsQuiet)
      (rw exported_text pinned-short)

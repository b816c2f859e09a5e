-- ===== src/Files/Again.antt =====
-- An export that succeeds is imported again.
use nm_openvpn.Base.{
  List, Str, ap, arith, false, inl, inr, Bool-cases, str_eq_iff, str_eq_refl, ltb, refl, some,
  str_eq, suc, true, ℕ, ◌∙◌, ◌≡◌, ◌≤◌,
}
use nm_openvpn.Profile.Values.{Data}
use nm_openvpn.Ovpn.Defs.{ok, ◌>>=◌}
use nm_openvpn.Export.Pinned.{connection_to_ovpn_text, pinned_text}
use nm_openvpn.Export.Exported.{exported, parse-connection_to_ovpn_text}
use nm_openvpn.Import.BlobName.{as_bytes}
use nm_openvpn.Import.Connection.{OvpnPath, System, connection_of, ovpn_text_to_connection}
use nm_openvpn.Files.Defs.{Disk, count, file}
use nm_openvpn.Files.Read.{
  Moment, checked, max_profile_bytes, read_buffer, read_capped, read_profile_securely, text,
}
use nm_openvpn.Files.Bounded.{take_all}
use nm_openvpn.Files.Write.{After, FilePath, Weather, export_connection_to_path, tmp_path, whole}
use nm_openvpn.Files.Atomic.{tmp_path_ne, Ends, export_connection_to_path-Ends}
use nm_openvpn.Files.Plugin.{
  export_to_file, import_from_file, import_reading, import_result, import_shown,
}

-- A read that finds the bytes of `s` as they were written.
pub record IsQuiet (m : Moment) (s : Str) : Type 0 where
  pub succeeds : m.fails ≡ false
  pub unchanged : m.later (as_bytes s) ≡ as_bytes s
  pub decoded : m.decode (as_bytes s) ≡ some s

not_longer : (a b : ℕ) → a ≤ b → ltb b a ≡ false
not_longer a b h = ground arith

pub read_written :
    (m : Moment) (max mode : ℕ) (s : Str)
    → IsQuiet m s
    → count (as_bytes s) ≤ max
    → read_capped m max (some (file mode (as_bytes s))) ≡ text s
unfolding read_capped read_buffer checked
read_written m max mode s q h =
    rw
      (
        q.succeeds,
        not_longer (count (as_bytes s)) max h,
        q.unchanged,
        take_all (suc max) (as_bytes s) (omega arith),
        q.decoded,
        not_longer (count (as_bytes s)) max h,
      )
      refl

apart_back : (a b : Str) → str_eq a b ≡ false → str_eq b a ≡ false
apart_back a b h = elim (Bool-cases (str_eq b a)) [
  | inr e ↦ e
  | inl e ↦ let same = (str_eq_iff b a).0 e in cc (ap (λ t. str_eq a t) same ∙ str_eq_refl a, h)
]

target_of_Ends :
    (tmp target : Str) (body : List ℕ) (q : Str) (before : Disk) (a : After)
    → Ends tmp target body q before a
    → a.succeeded ≡ true
    → a.disk target ≡ some (file 384 body)
target_of_Ends tmp target body q before a (inl h) done = h.1
target_of_Ends tmp target body q before a (inr h) done = cc (h.0)

-- The text that an export writes.
abbrev pub export_text : Moment → Data → Disk → Str
export_text m items disk =
    connection_to_ovpn_text (λ path. read_profile_securely m (disk path)) items

exported_file :
    (m : Moment) (w : Weather) (items : Data) (p : FilePath) (disk : Disk)
    → (export_to_file m w items p disk).succeeded ≡ true
    → (export_to_file m w items p disk).disk (whole p)
      ≡ some (file 384 (as_bytes (export_text m items disk)))
unfolding export_to_file
exported_file m w items p disk done =
    target_of_Ends (tmp_path p) (whole p) (as_bytes (export_text m items disk)) (whole p) disk
      (export_connection_to_path w (export_text m items disk) p disk)
      (export_connection_to_path-Ends w (export_text m items disk) p disk (whole p)
        (apart_back (tmp_path p) (whole p) (tmp_path_ne p)))
      done

-- If an export succeeds, and the file is then read as it was written and is no longer than 1 MiB, an
-- import of it gives the connection of the pinned file, where there was one that could be read, and
-- else of the very directives that the settings are exported as, or the error of `parse` or
-- `validate` for them.
pub import_from_file-export_to_file :
    (sys : System) (m again : Moment) (w : Weather) (items : Data) (p : FilePath) (disk : Disk)
    (path : OvpnPath)
    → path.shown ≡ some (whole p)
    → (export_to_file m w items p disk).succeeded ≡ true
    → IsQuiet again (export_text m items disk)
    → count (as_bytes (export_text m items disk)) ≤ max_profile_bytes
    → import_from_file sys again path (export_to_file m w items p disk).disk
      ≡ import_result (
          exported (pinned_text (λ q. read_profile_securely m (disk q)) items) items >>= λ config.
          ok (connection_of sys path config))
unfolding import_from_file import_shown import_reading ovpn_text_to_connection
import_from_file-export_to_file sys m again w items p disk path shown done quiet short =
    rw
      (
        shown,
        exported_file m w items p disk done,
        read_written again max_profile_bytes 384 (export_text m items disk) quiet short,
        parse-connection_to_ovpn_text (λ q. read_profile_securely m (disk q)) items,
      )
      refl

-- ===== src/Files/Read.antt =====
-- The guarded reads: `read_small_regular_file`, `read_profile_securely`, and the one of
-- `iface_import_from_file` in plugin.rs, which differ in their bounds and messages.
use nm_openvpn.Base.{Bool, List, Option, Str, if◌then◌else◌, ltb, none, some, suc, ℕ, ◌*◌, ◌^◌}
use nm_openvpn.Files.Defs.{Node, count, directory, fifo, file, link, take}

pub data ReadError : Type 0 where
  missing is_link not_regular too_long grew not_text failed : ReadError

pub data Reading : Type 0 where
  text : Str → Reading
  error : ReadError → Reading

-- A read: whether a call fails, what the file holds when it is read, where `fstat` has seen these
-- bytes, and the texts that are UTF-8.
pub record Moment : Type 0 where
  pub fails : Bool
  pub later : List ℕ → List ℕ
  pub decode : List ℕ → Option Str

unfoldable pub checked : ℕ → List ℕ → Option Str → Reading
checked max buf none = error not_text
checked max buf (some s) = if ltb max (count buf) then error grew else text s

unfoldable pub read_buffer : Moment → ℕ → List ℕ → Reading
read_buffer m max buf = checked max buf (m.decode buf)

-- The open does not follow a link and does not wait for a FIFO.
unfoldable pub read_capped : Moment → ℕ → Option Node → Reading
read_capped m max none = error missing
read_capped m max (some (link target)) = error is_link
read_capped m max (some fifo) = error not_regular
read_capped m max (some directory) = error not_regular
read_capped m max (some (file mode bytes)) =
    if m.fails
    then error failed
    else if ltb max (count bytes)
    then error too_long
    else read_buffer m max (take (suc max) (m.later bytes))

unfoldable pub max_authfile_bytes : ℕ
max_authfile_bytes = 16 * 1024

-- `MAX_PROFILE_BYTES` and `MAX_IMPORT_BYTES`
unfoldable pub max_profile_bytes : ℕ
max_profile_bytes = 2 ^ 20

unfoldable pub read_small_regular_file : Moment → Option Node → Reading
read_small_regular_file m node = read_capped m max_authfile_bytes node

unfoldable pub ok_text : Reading → Option Str
ok_text (text s) = some s
ok_text (error e) = none

unfoldable pub read_profile_securely : Moment → Option Node → Option Str
read_profile_securely m node = ok_text (read_capped m max_profile_bytes node)

-- ===== src/Files/Write.antt =====
-- `write_blob_securely` and `export_connection_to_path`. What the system does to the calls is
-- explicit: which of them fail, and what another program puts at the path in between.
use nm_openvpn.Base.{
  Bool, List, Option, Str, [], false, if◌then◌else◌, none, not, some, str, true, ℕ, ◌++◌, ◌||◌,
  str_eq, ◌∷◌,
}
use nm_openvpn.Base.Maps.{insert}
use nm_openvpn.Text.{ends_with, is_empty}
use nm_openvpn.Import.BlobName.{as_bytes}
use nm_openvpn.Files.Defs.{Disk, Node, file, is_directory, is_there, take}

-- `stops` is how many bytes are written where the write fails.
pub record Weather : Type 0 where
  pub remove_fails : Bool
  pub planted : Option Node
  pub open_fails : Bool
  pub stops : Option ℕ
  pub sync_fails : Bool
  pub rename_fails : Bool
  pub cleanup_fails : Bool

-- The disk after a call, and whether it succeeded.
pub record After : Type 0 where
  pub disk : Disk
  pub succeeded : Bool

unfoldable pub erase : Str → Disk → Disk
erase path disk q = if str_eq q path then none else disk q

-- `remove_file`, which removes a link itself; a missing file is an error that the callers tolerate.
unfoldable pub remove_file : Bool → Str → Disk → After
remove_file fails path disk =
    if is_directory (disk path) || fails
    then record { disk = disk; succeeded = false }
    else record { disk = erase path disk; succeeded = true }

unfoldable pub plant : Option Node → Str → Disk → Disk
plant none path disk = disk
plant (some n) path disk = insert path n disk

unfoldable pub fill : Bool → Option ℕ → Str → List ℕ → Disk → After
fill sync_fails (some n) path body disk = record {
  disk = insert path (file 384 (take n body)) disk;
  succeeded = false;
}
fill sync_fails none path body disk = record {
  disk = insert path (file 384 body) disk;
  succeeded = not sync_fails;
}

-- `create_new`, with mode 0600, and then the write.
unfoldable pub create : Weather → Str → List ℕ → Disk → After
create w path body disk =
    if is_there (disk path) || w.open_fails
    then record { disk = disk; succeeded = false }
    else fill w.sync_fails w.stops path body disk

unfoldable pub create_after : Weather → Str → List ℕ → After → After
create_after w path body removed =
    if removed.succeeded then create w path body (plant w.planted path removed.disk) else removed

unfoldable pub write_blob_securely : Weather → Str → List ℕ → Disk → After
write_blob_securely w path body disk =
    create_after w path body (remove_file w.remove_fails path disk)

unfoldable pub move : Option Node → Str → Str → Disk → Disk
move none from to disk = disk
move (some n) from to disk = insert to n (erase from disk)

-- `rename`, which takes the place of what stands there at once.
unfoldable pub rename : Bool → Str → Str → Disk → After
rename fails from to disk =
    if is_directory (disk to) || not (is_there (disk from)) || fails
    then record { disk = disk; succeeded = false }
    else record { disk = move (disk from) from to disk; succeeded = true }

unfoldable pub rename_after : Weather → Str → Str → After → After
rename_after w from to written =
    if written.succeeded then rename w.rename_fails from to written.disk else written

unfoldable pub clean_up : Weather → Str → After → After
clean_up w tmp moved =
    if moved.succeeded
    then moved
    else record { disk = (remove_file w.cleanup_fails tmp moved.disk).disk; succeeded = false }

-- A path by its parts: `parent()` and `file_name()`. A path without a file name is left out; it names
-- a directory, which a rename does not replace.
pub record FilePath : Type 0 where
  pub parent : Str
  pub file_name : Str

-- `parent.join(name)`
unfoldable pub join_path : Str → Str → Str
join_path parent name =
    if is_empty parent
    then name
    else if ends_with (b'/' ∷ []) parent
    then parent ++ name
    else parent ++ b'/' ∷ name

unfoldable pub whole : FilePath → Str
whole p = join_path p.parent p.file_name

unfoldable pub tmp_path : FilePath → Str
tmp_path p = join_path p.parent (b'.' ∷ (p.file_name ++ str ".tmp"))

-- `text` is what `connection_to_ovpn_text` gives.
unfoldable pub export_connection_to_path : Weather → Str → FilePath → Disk → After
export_connection_to_path w text p disk = clean_up w (tmp_path p) (
    rename_after w (tmp_path p) (whole p) (write_blob_securely w (tmp_path p) (as_bytes text) disk))

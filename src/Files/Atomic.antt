-- ===== src/Files/Atomic.antt =====
-- An export replaces its target at once, or leaves it alone.
use nm_openvpn.Base.{
  Bool, Bool-cases, List, Option, Str, [], ap, append_assoc, arith, false, suc, if◌then◌else◌, inl,
  inr, none, refl, some, str, str_eq, str_eq_iff, str_eq_refl, sym, true, ℕ, ◌++◌, ◌∙◌, ◌∷◌, ◌≡◌,
  ◌⊎◌, ◌+◌,
}
use nm_openvpn.Base.Maps.{insert, insert_ne, insert_self}
use nm_openvpn.Import.BlobName.{as_bytes}
use nm_openvpn.Files.Defs.{Disk, Node, file, take}
use nm_openvpn.Files.Write.{
  After, FilePath, Weather, clean_up, create, create_after, erase, export_connection_to_path, fill,
  join_path, move, plant, remove_file, rename, rename_after, tmp_path, whole, write_blob_securely,
}

-- Elsewhere a call changes nothing.
erase_ne : (k q : Str) (d : Disk) → str_eq q k ≡ false → erase k d q ≡ d q
unfolding erase
erase_ne k q d h = rw h

remove_file_ne :
    (b : Bool) (k q : Str) (d : Disk) → str_eq q k ≡ false → (remove_file b k d).disk q ≡ d q
unfolding remove_file erase
remove_file_ne b k q d h = ground arith

plant_ne : (o : Option Node) (k q : Str) (d : Disk) → str_eq q k ≡ false → plant o k d q ≡ d q
unfolding plant
plant_ne none k q d h = refl
plant_ne (some n) k q d h = insert_ne k q n d h

fill_ne :
    (b : Bool) (o : Option ℕ) (k q : Str) (body : List ℕ) (d : Disk)
    → str_eq q k ≡ false
    → (fill b o k body d).disk q ≡ d q
unfolding fill
fill_ne b none k q body d h = insert_ne k q (file 384 body) d h
fill_ne b (some n) k q body d h = insert_ne k q (file 384 (take n body)) d h

create_ne :
    (w : Weather) (k q : Str) (body : List ℕ) (d : Disk)
    → str_eq q k ≡ false
    → (create w k body d).disk q ≡ d q
unfolding create
create_ne w k q body d h = ground (arith, fill_ne w.sync_fails w.stops k q body d h)

pub write_blob_securely_ne :
    (w : Weather) (k q : Str) (body : List ℕ) (d : Disk)
    → str_eq q k ≡ false
    → (write_blob_securely w k body d).disk q ≡ d q
unfolding write_blob_securely create_after
write_blob_securely_ne w k q body d h =
    let removed = remove_file w.remove_fails k d in
    elim (Bool-cases (remove_file w.remove_fails k d).succeeded) [
      | inl e ↦ rw e (
          create_ne w k q body (plant w.planted k (remove_file w.remove_fails k d).disk) h
          ∙ plant_ne w.planted k q (remove_file w.remove_fails k d).disk h
          ∙ remove_file_ne w.remove_fails k q d h)
      | inr e ↦ rw e (remove_file_ne w.remove_fails k q d h)
    ]

-- Where the write succeeds, the file holds the whole body, and only its owner may read it.
fill_done :
    (b : Bool) (o : Option ℕ) (k : Str) (body : List ℕ) (d : Disk)
    → (fill b o k body d).succeeded ≡ true
    → (fill b o k body d).disk k ≡ some (file 384 body)
unfolding fill
fill_done b none k body d h = insert_self k (file 384 body) d
fill_done b (some n) k body d h = cc

create_done :
    (w : Weather) (k : Str) (body : List ℕ) (d : Disk)
    → (create w k body d).succeeded ≡ true
    → (create w k body d).disk k ≡ some (file 384 body)
unfolding create
create_done w k body d h = ground (arith, fill_done w.sync_fails w.stops k body d)

create_after_done :
    (w : Weather) (k : Str) (body : List ℕ) (removed : After)
    → (create_after w k body removed).succeeded ≡ true
    → (create_after w k body removed).disk k ≡ some (file 384 body)
unfolding create_after
create_after_done w k body removed h =
    ground (arith, create_done w k body (plant w.planted k removed.disk))

pub write_blob_securely_done :
    (w : Weather) (k : Str) (body : List ℕ) (d : Disk)
    → (write_blob_securely w k body d).succeeded ≡ true
    → (write_blob_securely w k body d).disk k ≡ some (file 384 body)
unfolding write_blob_securely
write_blob_securely_done w k body d h =
    create_after_done w k body (remove_file w.remove_fails k d) h

-- The two ways an export ends, as seen at the path `q`.
abbrev pub Ends : Str → Str → List ℕ → Str → Disk → After → Type 0
Ends tmp target body q before a =
    ((a.succeeded ≡ true)
      × (a.disk target ≡ some (file 384 body))
      × (a.disk tmp ≡ none)
      × (a.disk q ≡ (if str_eq q target then some (file 384 body) else before q)))
    ⊎ ((a.succeeded ≡ false) × (a.disk q ≡ before q))

rename_done :
    (b : Bool) (from to : Str) (n : Node) (d : Disk)
    → d from ≡ some n
    → (rename b from to d).succeeded ≡ true
    → (q : Str) → (rename b from to d).disk q ≡ insert to n (erase from d) q
unfolding rename move
rename_done b from to n d h done q = ground arith

rename_failed :
    (b : Bool) (from to : Str) (d : Disk)
    → (rename b from to d).succeeded ≡ false
    → (rename b from to d).disk ≡ d
unfolding rename
rename_failed b from to d h = ground arith

chosen {ℓ} :
    {A : Type ℓ} (b c : Bool) (x y : A) → b ≡ c → (if b then x else y) ≡ (if c then x else y)
chosen b c x y e = ap (λ t. if t then x else y) e

kept_moved :
    (w : Weather) (tmp : Str) (moved : After)
    → moved.succeeded ≡ true
    → clean_up w tmp moved ≡ moved
unfolding clean_up
kept_moved w tmp moved e = chosen moved.succeeded true _ _ e

cleaned_up :
    (w : Weather) (tmp : Str) (moved : After)
    → moved.succeeded ≡ false
    → clean_up w tmp moved
      ≡ record { disk = (remove_file w.cleanup_fails tmp moved.disk).disk; succeeded = false }
unfolding clean_up
cleaned_up w tmp moved e = chosen moved.succeeded false _ _ e

rename_after_done :
    (w : Weather) (from to : Str) (written : After) (b : Bool)
    → written.succeeded ≡ b
    → rename_after w from to written
      ≡ (if b then rename w.rename_fails from to written.disk else written)
unfolding rename_after
rename_after_done w from to written b e = chosen written.succeeded b _ _ e

clean_up_failed :
    (w : Weather) (tmp target : Str) (body : List ℕ) (q : Str) (before : Disk) (moved : After)
    → str_eq q tmp ≡ false
    → moved.succeeded ≡ false
    → moved.disk q ≡ before q
    → Ends tmp target body q before (clean_up w tmp moved)
clean_up_failed w tmp target body q before moved h failed same =
    rw (cleaned_up w tmp moved failed)
      (inr (refl, remove_file_ne w.cleanup_fails tmp q moved.disk h ∙ same))

renamed_at :
    (tmp target q : Str) (n : Node) (d : Disk)
    → str_eq q tmp ≡ false
    → insert target n (erase tmp d) q ≡ (if str_eq q target then some n else d q)
unfolding insert erase
renamed_at tmp target q n d h = ground arith

renamed_tmp :
    (tmp target : Str) (n : Node) (d : Disk)
    → str_eq tmp target ≡ false
    → insert target n (erase tmp d) tmp ≡ none
unfolding insert erase
renamed_tmp tmp target n d h = rw (h, str_eq_refl tmp) refl

clean_up_done :
    (w : Weather) (tmp target : Str) (body : List ℕ) (q : Str) (before d : Disk) (moved : After)
    → str_eq q tmp ≡ false
    → str_eq tmp target ≡ false
    → moved.succeeded ≡ true
    → ((p : Str) → moved.disk p ≡ insert target (file 384 body) (erase tmp d) p)
    → d q ≡ before q
    → Ends tmp target body q before (clean_up w tmp moved)
clean_up_done w tmp target body q before d moved h apart done at same =
    rw (kept_moved w tmp moved done) (
      inl (
        done,
        at target ∙ insert_self target (file 384 body) (erase tmp d),
        at tmp ∙ renamed_tmp tmp target (file 384 body) d apart,
        at q
            ∙ renamed_at tmp target q (file 384 body) d h
            ∙ ap (λ o. if str_eq q target then some (file 384 body) else o) same,
      ))

renamed-Ends :
    (w : Weather) (tmp target : Str) (body : List ℕ) (q : Str) (before d : Disk)
    → str_eq q tmp ≡ false
    → str_eq tmp target ≡ false
    → d tmp ≡ some (file 384 body)
    → d q ≡ before q
    → Ends tmp target body q before (clean_up w tmp (rename w.rename_fails tmp target d))
renamed-Ends w tmp target body q before d h apart full same =
    let moved = rename w.rename_fails tmp target d in
    elim (Bool-cases (rename w.rename_fails tmp target d).succeeded) [
      | inl done ↦
          clean_up_done w tmp target body q before d moved h apart done
            (rename_done w.rename_fails tmp target (file 384 body) d full done) same
      | inr failed ↦
          clean_up_failed w tmp target body q before moved h failed
            (ap (λ x. x q) (rename_failed w.rename_fails tmp target d failed) ∙ same)
    ]

-- The rest of the export, once the temporary file was written or not.
finish-Ends :
    (w : Weather) (tmp target : Str) (body : List ℕ) (q : Str) (before : Disk) (written : After)
    → str_eq q tmp ≡ false
    → str_eq tmp target ≡ false
    → (written.succeeded ≡ true → written.disk tmp ≡ some (file 384 body))
    → written.disk q ≡ before q
    → Ends tmp target body q before (clean_up w tmp (rename_after w tmp target written))
finish-Ends w tmp target body q before written h apart full same =
    elim (Bool-cases written.succeeded) [
      | inr e ↦
          rw (rename_after_done w tmp target written false e)
            (clean_up_failed w tmp target body q before written h e same)
      | inl e ↦
          rw (rename_after_done w tmp target written true e)
            (renamed-Ends w tmp target body q before written.disk h apart (full e) same)
    ]

size : Str → ℕ
size [] = 0
size (c ∷ s) = suc (size s)

size-append : (a b : Str) → size (a ++ b) ≡ size a + size b
unfolding size
size-append [] b = omega arith
size-append (c ∷ a) b = omega (arith, size-append a b)

longer : (a n : Str) → str_eq (a ++ b'.' ∷ (n ++ str ".tmp")) (a ++ n) ≡ false
unfolding size str
longer a n = elim (Bool-cases (str_eq (a ++ b'.' ∷ (n ++ str ".tmp")) (a ++ n))) [
  | inr e ↦ e
  | inl e ↦ absurd (
      omega (
        arith,
        ap size ((str_eq_iff (a ++ b'.' ∷ (n ++ str ".tmp")) (a ++ n)).0 e),
        size-append a (b'.' ∷ (n ++ str ".tmp")),
        size-append a n,
        size-append n (str ".tmp"),
      ))
]

longer_slash : (a n : Str) → str_eq (a ++ b'/' ∷ b'.' ∷ (n ++ str ".tmp")) (a ++ b'/' ∷ n) ≡ false
longer_slash a n =
    ap (λ t. str_eq t (a ++ b'/' ∷ n)) (sym (append_assoc a (b'/' ∷ []) (b'.' ∷ (n ++ str ".tmp"))))
    ∙ ap (str_eq ((a ++ b'/' ∷ []) ++ b'.' ∷ (n ++ str ".tmp")))
        (sym (append_assoc a (b'/' ∷ []) n))
    ∙ longer (a ++ b'/' ∷ []) n

pub tmp_path_ne : (p : FilePath) → str_eq (tmp_path p) (whole p) ≡ false
unfolding tmp_path whole join_path
tmp_path_ne p =
    ground
      (arith, longer [] p.file_name, longer p.parent p.file_name, longer_slash p.parent p.file_name)

-- Whatever calls fail, at whatever byte, and whatever another program puts at the temporary path, an
-- export ends in one of two ways. It succeeds: the target is a regular file with the whole text that
-- only its owner may read, the temporary file is gone, and no other path has changed. Or it fails,
-- and every path but the temporary one holds what it held.
pub export_connection_to_path-Ends :
    (w : Weather) (text : Str) (p : FilePath) (disk : Disk) (q : Str)
    → str_eq q (tmp_path p) ≡ false
    → Ends (tmp_path p) (whole p) (as_bytes text) q disk (export_connection_to_path w text p disk)
unfolding export_connection_to_path
export_connection_to_path-Ends w text p disk q h =
    let written = write_blob_securely w (tmp_path p) (as_bytes text) disk in
    finish-Ends w (tmp_path p) (whole p) (as_bytes text) q disk written h (tmp_path_ne p)
      (write_blob_securely_done w (tmp_path p) (as_bytes text) disk)
      (write_blob_securely_ne w (tmp_path p) q (as_bytes text) disk h)

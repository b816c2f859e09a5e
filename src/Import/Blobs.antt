-- ===== src/Import/Blobs.antt =====
-- The items that the blobs of an import give.
use nm_openvpn.Base.{
  Bool, Bool-cases, List, Option, Str, [], and-true, ap, false, if◌then◌else◌, inl, inr, none, refl,
  some, str, str_eq, str_eq_iff, sym, true, ◌&&◌, ◌++◌, ◌∙◌, ◌∷◌, ◌≡◌, ◌⊎◌,
}
use nm_openvpn.Base.Maps.{Map, insert}
use nm_openvpn.Ovpn.Defs.{Directive, blob, option}
use nm_openvpn.Import.BlobName.{blob_filename}
use nm_openvpn.Import.Connection.{
  System, add_blob, add_blobs, add_directive, blob_bytes, is_c_string, point_at, write_blobs,
}

-- The keys that point at the file of a blob.
abbrev pub IsPointed : Str → Str → Type 0
IsPointed name k =
    (k ≡ name) ⊎ ((name ≡ str "pkcs12") × ((k ≡ str "ca") ⊎ (k ≡ str "cert") ⊎ (k ≡ str "key")))

-- `v` is the path of a blob that has been written, and `k` points at it.
pub data IsWritten (sys : System) (dir id : Str) : List Directive → Str → Str → Type 0 where
  here :
      (name body k v : Str) (ds : List Directive)
      → IsPointed name k
      → v ≡ dir ++ b'/' ∷ blob_filename sys.is_alphanumeric id name
      → sys.write_blob v (blob_bytes sys name body) ≡ true
      → IsWritten sys dir id (blob name body ∷ ds) k v
  there :
      (d : Directive) (ds : List Directive) (k v : Str)
      → IsWritten sys dir id ds k v
      → IsWritten sys dir id (d ∷ ds) k v

pub insert_cases :
    (k p : Str) (d : Map Str) (j v : Str)
    → insert k p d j ≡ some v
    → ((j ≡ k) × (v ≡ p)) ⊎ (d j ≡ some v)
unfolding insert
insert_cases k p d j v h = elim (Bool-cases (str_eq j k)) [
  | inl e ↦ inl ((str_eq_iff j k).0 e, cc (h, e))
  | inr e ↦ inr (sym (ap (λ t. if t then some p else d j) e) ∙ h)
]

abbrev Point : Str → Str → Map Str → Str → Str → Type 0
Point name p items j v = (IsPointed name j × (v ≡ p)) ⊎ (items j ≡ some v)

insert-Point :
    (name p : Str) (items : Map Str) (j v : Str)
    → insert name p items j ≡ some v
    → Point name p items j v
insert-Point name p items j v h = elim (insert_cases name p items j v h) [
  | inl (k, e) ↦ inl (inl k, e)
  | inr old ↦ inr old
]

bundle-Point :
    (name p : Str) (items : Map Str) (j v : Str)
    → name ≡ str "pkcs12"
    → insert (str "key") p (insert (str "cert") p (insert (str "ca") p (insert name p items))) j
      ≡ some v
    → Point name p items j v
bundle-Point name p items j v n h = elim (insert_cases (str "key") p _ j v h) [
  | inl (k, e) ↦ inl (inr (n, inr (inr k)), e)
  | inr h ↦ elim (insert_cases (str "cert") p _ j v h) [
    | inl (k, e) ↦ inl (inr (n, inr (inl k)), e)
    | inr h ↦ elim (insert_cases (str "ca") p _ j v h) [
      | inl (k, e) ↦ inl (inr (n, inl k), e)
      | inr h ↦ insert-Point name p items j v h
    ]
  ]
]

-- A value of a map that was chosen by a test.
pub chosen :
    (b : Bool) (new old : Map Str) (j v : Str)
    → (if b then new else old) j ≡ some v
    → ((b ≡ true) × (new j ≡ some v)) ⊎ (old j ≡ some v)
chosen true new old j v h = inl (refl, h)
chosen false new old j v h = inr h

abbrev bundle : Str → Str → Map Str → Map Str
bundle name p items =
    insert (str "key") p (insert (str "cert") p (insert (str "ca") p (insert name p items)))

point_at_cases :
    (name p : Str) (items : Map Str) (j v : Str)
    → point_at name p items j ≡ some v
    → Point name p items j v
unfolding point_at
point_at_cases name p items j v h =
    elim (chosen (str_eq name (str "pkcs12")) (bundle name p items) (insert name p items) j v h) [
      | inl (e, all) ↦ bundle-Point name p items j v ((str_eq_iff name (str "pkcs12")).0 e) all
      | inr one ↦ insert-Point name p items j v one
    ]

module _ (sys : System) (dir id : Str) where
  abbrev blob_path : Str → Str
  blob_path name = dir ++ b'/' ∷ blob_filename sys.is_alphanumeric id name

  add_directive-cases :
      (d : Directive) (ds : List Directive) (items : Map Str) (j v : Str)
      → add_directive sys dir id d items j ≡ some v
      → IsWritten sys dir id (d ∷ ds) j v ⊎ (items j ≡ some v)
  unfolding add_directive add_blob
  add_directive-cases (option name args) ds items j v h = inr h
  add_directive-cases (blob name body) ds items j v h =
      elim (chosen
        (sys.write_blob (blob_path name) (blob_bytes sys name body)
          && is_c_string name
          && is_c_string (blob_path name))
        (point_at name (blob_path name) items) items j v h) [
          | inr old ↦ inr old
          | inl (done, pointed) ↦ elim (point_at_cases name (blob_path name) items j v pointed) [
            | inr old ↦ inr old
            | inl (k, e) ↦ inl (
                here name body j v ds k e (
                  ap (λ q. sys.write_blob q (blob_bytes sys name body)) e
                  ∙ (and-true _ _ (and-true _ _ done).0).0))
          ]
        ]

  add_blobs-cases :
      (ds : List Directive) (items : Map Str) (j v : Str)
      → add_blobs sys dir id ds items j ≡ some v
      → IsWritten sys dir id ds j v ⊎ (items j ≡ some v)
  unfolding add_blobs
  add_blobs-cases [] items j v h = inr h
  add_blobs-cases (d ∷ ds) items j v h =
      elim (add_blobs-cases ds (add_directive sys dir id d items) j v h) [
        | inl written ↦ inl (there d ds j v written)
        | inr added ↦ add_directive-cases d ds items j v added
      ]

pub write_blobs-cases :
    (sys : System) (o : Option Str) (id : Str) (ds : List Directive) (items : Map Str) (j v : Str)
    → write_blobs sys o id ds items j ≡ some v
    → ((dir : Str) × (o ≡ some dir) × IsWritten sys dir id ds j v) ⊎ (items j ≡ some v)
unfolding write_blobs
write_blobs-cases sys none id ds items j v h = inr h
write_blobs-cases sys (some dir) id ds items j v h =
    elim (add_blobs-cases sys dir id ds items j v h) [
      | inl w ↦ inl (dir, refl, w)
      | inr old ↦ inr old
    ]

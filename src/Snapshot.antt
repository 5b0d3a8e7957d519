-- ===== src/Snapshot.antt =====
-- The snapshot file of a gateway: internal/dataplane/snapshot.go. The file system keeps the file and the one
-- beside it with the suffix .tmp; whether it makes the directory, writes and renames is an argument.
use proxy_mesh.Prelude.{
  Bool, true, false, Option, none, some, List, Result, ok, err, ◌≡◌, ◌⊎◌, inl, inr, refl, ap,
  Result-cases, Option-cases, if_cases, if◌then◌else◌,
}
use proxy_mesh.Prelude.Bytes.{Bytes}
use proxy_mesh.Model.{DeviceRoute}
use proxy_mesh.Prelude.Json.{Json, Parses}
use proxy_mesh.Cryptox.{Aead, CipherError, Opens, encrypt, decrypt, decrypt-encrypt}

pub record Disk : Type 0 where
  pub file : Option Bytes
  pub temporary : Option Bytes

-- A write that fails may leave some bytes.
pub data Write : Type 0 where
  written : Write
  broken : Bytes → Write

pub record FileSystem : Type 0 where
  pub makes_directory : Bool
  pub write : Write
  pub renames : Bool

pub data SnapshotError : Type 0 where
  not_marshalled not_unmarshalled directory_failed write_failed rename_failed no_file :
      SnapshotError
  cipher_failed : CipherError → SnapshotError

abbrev pub Saved : Type 0
Saved = Disk × Result SnapshotError (Unit {0})

-- os.Rename
abbrev pub rename : Bool → Bytes → Disk → Saved
rename true bytes d = (record { file = some bytes; temporary = none }, ok tt)
rename false bytes d = (record d { temporary = some bytes }, err rename_failed)

-- os.WriteFile, and then the rename.
abbrev pub write_file : FileSystem → Write → Bytes → Disk → Saved
write_file fs written bytes d = rename fs.renames bytes d
write_file fs (broken part) bytes d = (record d { temporary = some part }, err write_failed)

abbrev pub store_bytes : FileSystem → Bytes → Disk → Saved
store_bytes fs bytes d =
    if fs.makes_directory then write_file fs fs.write bytes d else (d, err directory_failed)

-- The file holds the new bytes if the save succeeds, and what was there if it does not.
abbrev Replaces : Bytes → Disk → Saved → Type 0
Replaces bytes d w =
    ((w.1 ≡ ok tt) × (w.0.file ≡ some bytes))
    ⊎ ((e : SnapshotError) × (w.1 ≡ err e) × (w.0.file ≡ d.file))

module _ (a : Aead) (json : Json (List DeviceRoute)) where
  abbrev pub save_encrypted : FileSystem → Disk → Result CipherError Bytes → Saved
  save_encrypted fs d (err e) = (d, err (cipher_failed e))
  save_encrypted fs d (ok bytes) = store_bytes fs bytes d

  unfoldable pub save_snapshot : FileSystem → Bytes → Disk → List DeviceRoute → Saved
  save_snapshot fs random d routes = elim (json.marshal routes) [
    | none ↦ (d, err not_marshalled)
    | some plain ↦ save_encrypted fs d (encrypt a random plain)
  ]

  abbrev pub parse_routes : Option (List DeviceRoute) → Result SnapshotError (List DeviceRoute)
  parse_routes none = err not_unmarshalled
  parse_routes (some routes) = ok routes

  abbrev pub load_decrypted : Result CipherError Bytes → Result SnapshotError (List DeviceRoute)
  load_decrypted (err e) = err (cipher_failed e)
  load_decrypted (ok plain) = parse_routes (json.unmarshal plain)

  unfoldable pub load_snapshot : Disk → Result SnapshotError (List DeviceRoute)
  load_snapshot d = elim d.file [
    | none ↦ err no_file
    | some bytes ↦ load_decrypted (decrypt a bytes)
  ]

  rename-Replaces : (b : Bool) (bytes : Bytes) (d : Disk) → Replaces bytes d (rename b bytes d)
  rename-Replaces true bytes d = inl (refl, refl)
  rename-Replaces false bytes d = inr (rename_failed, refl, refl)

  write_file-Replaces :
      (fs : FileSystem) (w : Write) (bytes : Bytes) (d : Disk)
      → Replaces bytes d (write_file fs w bytes d)
  write_file-Replaces fs written bytes d = rename-Replaces fs.renames bytes d
  write_file-Replaces fs (broken part) bytes d = inr (write_failed, refl, refl)

  store_bytes-Replaces :
      (fs : FileSystem) (bytes : Bytes) (d : Disk) → Replaces bytes d (store_bytes fs bytes d)
  store_bytes-Replaces fs bytes d =
      if_cases (Replaces bytes d) fs.makes_directory _ _
        (λ e. write_file-Replaces fs fs.write bytes d) (λ e. inr (directory_failed, refl, refl))

  -- What LoadSnapshot gives depends on the file alone.
  load-same : (d e : Disk) → d.file ≡ e.file → load_snapshot d ≡ load_snapshot e
  unfolding load_snapshot
  load-same d e h = ap (λ f. load_snapshot (record { file = f; temporary = none })) h

  load-file :
      (d : Disk) (plain bytes : Bytes) (routes : List DeviceRoute)
      → d.file ≡ some bytes
      → decrypt a bytes ≡ ok plain
      → json.unmarshal plain ≡ some routes
      → load_snapshot d ≡ ok routes
  unfolding load_snapshot
  load-file d plain bytes routes f e u = rw (f, load_snapshot, e, u) refl

  -- A save either succeeds, and then LoadSnapshot gives the routes that were saved, or fails, and then
  -- LoadSnapshot gives what it gave before: a file is never left half written. Open undoes Seal, and the
  -- routes, once marshalled, are unmarshalled again.
  pub load_snapshot-save_snapshot :
      (fs : FileSystem) (random : Bytes) (d : Disk) (routes : List DeviceRoute)
      → Opens a
      → Parses json routes
      → let w = save_snapshot fs random d routes in
        ((w.1 ≡ ok tt) × (load_snapshot w.0 ≡ ok routes))
        ⊎ ((e : SnapshotError) × (w.1 ≡ err e) × (load_snapshot w.0 ≡ load_snapshot d))
  unfolding save_snapshot
  load_snapshot-save_snapshot fs random d routes o p = elim (Option-cases (json.marshal routes)) [
    | inl e ↦ rw (e, save_snapshot) (inr (not_marshalled, refl, refl))
    | inr (plain, e) ↦ elim (Result-cases (encrypt a random plain)) [
      | inr (x, f) ↦ rw (e, f, save_snapshot) (inr (cipher_failed x, refl, refl))
      | inl (bytes, f) ↦
          rw (e, f, save_snapshot)
            (elim (store_bytes-Replaces fs bytes d) [
              | inl (done, file) ↦ inl (
                done,
                load-file _ plain bytes routes file (decrypt-encrypt a random plain o f)
                    (p.unmarshal-marshal e),
              )
              | inr (x, failed, file) ↦ inr (x, failed, load-same _ d file)
            ])
    ]
  ]

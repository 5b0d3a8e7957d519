-- ===== src/Tests/Files.antt =====
-- A snapshot file of internal/dataplane/snapshot.go that is saved and loaded.
use proxy_mesh.Prelude.{pos, true, none, some, List, [], ◌∷◌, ok, err, ◌≡◌, ◌⊎◌, refl}
use proxy_mesh.Prelude.Json.{Json, Parses}
use proxy_mesh.Model.{DeviceRoute}
use proxy_mesh.Snapshot.{
  Disk, FileSystem, written, SnapshotError, save_snapshot, load_snapshot,
  load_snapshot-save_snapshot,
}
use proxy_mesh.Tests.Fixtures.{plain_aead, plain_aead-Opens, phone_route}

abbrev routes : List DeviceRoute
routes = phone_route (pos 1) ∷ []

abbrev json : Json (List DeviceRoute)
json = record { marshal = λ r. some (91 ∷ 93 ∷ []); unmarshal = λ b. some routes }

routes-Parses : Parses json routes
routes-Parses = record { unmarshal-marshal = λ h. refl }

abbrev disk : Disk
disk = record { file = none; temporary = none }

abbrev working : FileSystem
working = record { makes_directory = true; write = written; renames = true }

load_snapshot-save_snapshot_example :
    (((save_snapshot plain_aead json working (7 ∷ []) disk routes).1 ≡ ok tt)
      × (load_snapshot plain_aead json
            (save_snapshot plain_aead json working (7 ∷ []) disk routes).0
          ≡ ok routes))
    ⊎ ((e : SnapshotError) × ((save_snapshot plain_aead json working (7 ∷ []) disk routes).1
          ≡ err e)
        × (load_snapshot plain_aead json
              (save_snapshot plain_aead json working (7 ∷ []) disk routes).0
            ≡ load_snapshot plain_aead json disk))
load_snapshot-save_snapshot_example =
    load_snapshot-save_snapshot plain_aead json working (7 ∷ []) disk routes plain_aead-Opens
      routes-Parses

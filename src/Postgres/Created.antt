-- ===== src/Postgres/Created.antt =====
-- CreateDevice of internal/store/postgres.go, and what GetDevice reads of the device.
use proxy_mesh.Prelude.{
  ◌<◌, ℤ, pos, String, Bool, true, false, not, Option, none, some, List, [], ◌∷◌, ◌==◌, string_eq,
  int_eq, if◌then◌else◌, Result, ok, err, any, ◌≡◌, refl, sym, ◌∙◌, ap, subst, ◌⊎◌, eq_iff, arith,
  bind-ok, refused_if, granted_if, ok-injective, Result-cases, inl, inr, length, beq_ℤ_iff,
}
use proxy_mesh.Prelude.Bytes.{Bytes, bytes_of}
use proxy_mesh.Model.{Device, DeviceIngress, device_ingresses}
use proxy_mesh.Cryptox.{Aead, Opens, encrypt-nonempty}
use proxy_mesh.Postgres.{
  Database, DeviceRow, IngressRow, Session, Failure, unique_violation, other_error, done, mapped,
  transact, encrypt_text, decrypt_text,
}
use proxy_mesh.Postgres.Rows.{first, select, select-none, order_by, insert_in_order, coalesce}
use proxy_mesh.Postgres.Statements.{
  port_in_range, nullable_in_range, device_clash, ingress_clash, is_device, insert_device,
  insert_ingress,
}
use proxy_mesh.Postgres.Devices.{
  of_device, kept_ingress, kept_device, ingress_row, device_row, encrypt_legacy, decrypt_nullable,
  insert_ingresses, create_body, create_device, some_cipher, nullable_port, decrypt_rows,
  load_device_ingresses, get_device,
}
use proxy_mesh.Postgres.Answers.{ciphered-ok, mapped-ok, transact-ok, decrypt_text-encrypt_text}

insert_device-ok :
    (row : DeviceRow) (db : Database) {db' : Database}
    → insert_device row db ≡ ok db'
    → record db { devices = row ∷ db.devices } ≡ db'
unfolding insert_device
insert_device-ok row db h =
    let in_range = refused_if (not (nullable_in_range row.ingress_port)) other_error _ h in
    let unique = refused_if (any (device_clash row) db.devices) unique_violation _ in_range.1 in
    ok-injective unique.1

insert_ingress-ok :
    (row : IngressRow) (db : Database) {db' : Database}
    → insert_ingress row db ≡ ok db'
    → record db { device_ingresses = row ∷ db.device_ingresses } ≡ db'
unfolding insert_ingress
insert_ingress-ok row db h =
    let in_range = refused_if (not (port_in_range row.port)) other_error _ h in
    let unique =
      refused_if (any (ingress_clash row) db.device_ingresses) unique_violation _ in_range.1 in
    let owned = granted_if (any (is_device row.device_id) db.devices) other_error _ unique.1 in
    ok-injective owned.1

decrypt_nullable-some :
    (a : Aead) (cipher : Bytes)
    → 0 < length cipher
    → decrypt_nullable a (some cipher) ≡ decrypt_text a cipher
unfolding decrypt_nullable
decrypt_nullable-some a [] h = absurd (omega arith)
decrypt_nullable-some a (b ∷ bs) h = refl

-- The cipher of a password is null if the password is empty, and else what Encrypt has given.
legacy_cases :
    (empty : Bool) (r : Result Failure Bytes) {cipher : Option Bytes}
    → (if empty then ok none else some_cipher r) ≡ ok cipher
    → ((empty ≡ true) × (none ≡ cipher)) ⊎ ((c : Bytes) × (r ≡ ok c) × (some c ≡ cipher))
legacy_cases true r h = inl (refl, ok-injective h)
legacy_cases false (ok c) h = inr (c, refl, ok-injective h)
legacy_cases false (err e) h = absurd (cc)

-- A device with one ingress, as the tables keep it.
abbrev pub kept : Session → Device → DeviceIngress → Device
kept s d i = record (kept_device s.keeps d) { ingresses = kept_ingress s.keeps i ∷ [] }

module _ (a : Aead) where
  encrypt_legacy-decrypts :
      (random : Bytes) (password : String) {cipher : Option Bytes}
      → Opens a
      → 0 < a.nonce_size
      → encrypt_legacy a random password ≡ ok cipher
      → decrypt_nullable a cipher ≡ ok password
  unfolding encrypt_legacy encrypt_text decrypt_nullable
  encrypt_legacy-decrypts random password o n h =
      elim (legacy_cases (password == "") (encrypt_text a random password) h) [
        | inl (e, c) ↦
            subst (λ c. decrypt_nullable a c ≡ ok password) c
              (ap ok (sym ((eq_iff password "").0 e)))
        | inr (c, e, f) ↦
            subst (λ c. decrypt_nullable a c ≡ ok password) f
              (decrypt_nullable-some a c
                  (encrypt-nonempty a random (bytes_of password) n (ciphered-ok _ e))
                ∙ decrypt_text-encrypt_text a random password o e)
      ]

  insert_ingresses-one :
      (s : Session) (id : String) (i : DeviceIngress) (db : Database) {db' : Database}
      → insert_ingresses a s 0 id (i ∷ []) db ≡ ok (db', tt)
      → (c : Bytes) × (encrypt_text a (s.random 1) i.password ≡ ok c)
        × (record db {
          device_ingresses = ingress_row id c (kept_ingress s.keeps i) ∷ db.device_ingresses;
        }
            ≡ db')
  unfolding insert_ingresses
  insert_ingresses-one s id i db h =
      let cipher = bind-ok (encrypt_text a (s.random 1) i.password) _ h in
      let inserted =
        bind-ok
          (mapped (s.answer 1)
            (insert_ingress (ingress_row id cipher.0 (kept_ingress s.keeps i)) db))
          _ cipher.2 in
      (
        cipher.0,
        cipher.1,
        insert_ingress-ok (ingress_row id cipher.0 (kept_ingress s.keeps i)) db
              (mapped-ok (s.answer 1) _ inserted.1)
            ∙ ap (λ (w : Database × (Unit {0})). w.0) (ok-injective inserted.2),
      )

  -- The rows of a device with one ingress.
  create_body-ok :
      (s : Session) (d : Device) (i : DeviceIngress) (cipher : Option Bytes) (db : Database)
      {db' : Database}
      → device_ingresses d ≡ i ∷ []
      → create_body a s d cipher db ≡ ok (db', tt)
      → (c : Bytes) × (encrypt_text a (s.random 1) i.password ≡ ok c)
        × (record db {
          devices = device_row (kept_device s.keeps d) cipher ∷ db.devices;
          device_ingresses = ingress_row d.id c (kept_ingress s.keeps i) ∷ db.device_ingresses;
        }
            ≡ db')
  unfolding create_body
  create_body-ok s d i cipher db {db' = db'} one h =
      let device =
        bind-ok (mapped (s.answer 0) (insert_device (device_row (kept_device s.keeps d) cipher) db))
          _ h in
      let opened =
        insert_device-ok (device_row (kept_device s.keeps d) cipher) db
          (mapped-ok (s.answer 0) _ device.1) in
      let ingress =
        insert_ingresses-one s d.id i device.0
          (subst (λ is. insert_ingresses a s 0 d.id is device.0 ≡ ok (db', tt)) one device.2) in
      (
        ingress.0,
        ingress.1,
        ap
              (λ (x : Database). record x {
                device_ingresses =
                    ingress_row d.id ingress.0 (kept_ingress s.keeps i) ∷ x.device_ingresses;
              })
              opened
            ∙ ingress.2,
      )

  first-device_row :
      (d : Device) (cipher : Option Bytes) (rows : List DeviceRow)
      → first (is_device d.id) (device_row d cipher ∷ rows) ≡ some (device_row d cipher)
  unfolding first
  first-device_row d cipher rows = ground (arith, eq_iff d.id d.id)

  select-ingress_row :
      (id : String) (c : Bytes) (i : DeviceIngress) (rows : List IngressRow)
      → any (of_device id) rows ≡ false
      → select (of_device id) (ingress_row id c i ∷ rows) ≡ ingress_row id c i ∷ []
  unfolding select
  select-ingress_row id c i rows h = ground (arith, eq_iff id id, select-none (of_device id) rows h)

  coalesce-nullable_port : (p : ℤ) → coalesce (nullable_port p) (pos 0) ≡ p
  coalesce-nullable_port p = ground (arith, beq_ℤ_iff p (pos 0))

  -- What GetDevice reads of these rows.
  get_device-rows :
      (db : Database) (d : Device) (i : DeviceIngress) (cipher : Option Bytes) (c : Bytes)
      → any (of_device d.id) db.device_ingresses ≡ false
      → decrypt_nullable a cipher ≡ ok d.ingress_password
      → decrypt_text a c ≡ ok i.password
      → get_device a done done
          (record db {
            devices = device_row d cipher ∷ db.devices;
            device_ingresses = ingress_row d.id c i ∷ db.device_ingresses;
          })
          d.id
        ≡ ok (record d { ingresses = i ∷ [] })
  unfolding get_device load_device_ingresses order_by insert_in_order decrypt_rows
  get_device-rows db d i cipher c free legacy own =
      rw
        (
          first-device_row d cipher db.devices,
          legacy,
          select-ingress_row d.id c i db.device_ingresses free,
          own,
          coalesce-nullable_port d.ingress_port,
        )
        refl

  create_device-encrypted :
      (s : Session) (db : Database) (d : Device) {cipher : Option Bytes}
      → encrypt_legacy a (s.random 0) d.ingress_password ≡ ok cipher
      → create_device a s db d ≡ transact s db (create_body a s d cipher)
  unfolding create_device
  create_device-encrypted s db d e = rw (e, create_device) refl

  create_device-refused :
      (s : Session) (db : Database) (d : Device) {x : Failure}
      → encrypt_legacy a (s.random 0) d.ingress_password ≡ err x
      → create_device a s db d ≡ (db, err x)
  unfolding create_device
  create_device-refused s db d e = rw (e, create_device) refl

  -- If CreateDevice succeeds for a device with one ingress, then GetDevice gives that device, its password
  -- and that ingress, with what the columns keep of their times. Open undoes Seal, the nonce is not empty, and no ingress is stored for a device with
  -- its id before.
  pub get_device-create_device :
      (s : Session) (db : Database) (d : Device) (i : DeviceIngress) {db' : Database}
      → Opens a
      → 0 < a.nonce_size
      → device_ingresses d ≡ i ∷ []
      → any (of_device d.id) db.device_ingresses ≡ false
      → create_device a s db d ≡ (db', ok tt)
      → get_device a done done db' d.id ≡ ok (kept s d i)
  get_device-create_device s db d i {db' = db'} o n one free h =
      elim (Result-cases (encrypt_legacy a (s.random 0) d.ingress_password)) [
        | inl (cipher, e) ↦
            let rows = create_body-ok s d i cipher db one (
              transact-ok s db (create_body a s d cipher)
                (sym (create_device-encrypted s db d e) ∙ h)) in
            subst (λ x. get_device a done done x d.id ≡ ok (kept s d i)) rows.2
              (get_device-rows db (kept_device s.keeps d) (kept_ingress s.keeps i) cipher rows.0
                free (encrypt_legacy-decrypts (s.random 0) d.ingress_password o n e)
                (decrypt_text-encrypt_text a (s.random 1) i.password o rows.1))
        | inr (x, e) ↦ absurd (cc (ap (λ w. w.1) (sym (create_device-refused s db d e) ∙ h)))
      ]

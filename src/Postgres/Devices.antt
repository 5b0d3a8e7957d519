-- ===== src/Postgres/Devices.antt =====
-- The methods of internal/store/postgres.go on devices and their ingresses. Statement k of a call is answered as
-- `answer k` says, and encryption k reads `random k`.
use proxy_mesh.Prelude.{
  ℕ, suc, ℤ, pos, String, Bool, true, false, ◌&&◌, ◌||◌, not, Option, none, some, List, [], ◌∷◌,
  ◌==◌, string_eq, int_eq, if◌then◌else◌, Result, ok, err, ◌>>=◌, leb, leb_ℤ, ltb_ℤ,
}
use proxy_mesh.Prelude.Bytes.{Bytes}
use proxy_mesh.Model.{Device, DeviceIngress, Time, device_ingresses}
use proxy_mesh.Cryptox.{Aead}
use proxy_mesh.Postgres.{
  DeviceRow, IngressRow, Database, Session, Outcome, SqlError, no_rows, Failure, conflict, from_sql,
  map_err, mapped, raw, auto, transact, encrypt_text, decrypt_text,
}
use proxy_mesh.Postgres.Rows.{first, select, unless, update, count, order_by, head, coalesce}
use proxy_mesh.Postgres.Statements.{
  is_device, is_ingress, insert_device, insert_ingress, touch_device, set_legacy, set_primary,
}

abbrev pub found : {A : Type 0} → Option A → Result SqlError A
found none = err no_rows
found (some a) = ok a

-- `ORDER BY is_primary DESC,created_at,port`
abbrev pub older : IngressRow → IngressRow → Bool
older r x = ltb_ℤ r.created_at x.created_at || (r.created_at == x.created_at && leb_ℤ r.port x.port)

abbrev pub primary_first : IngressRow → IngressRow → Bool
primary_first r x =
    if r.is_primary then not x.is_primary || older r x else not x.is_primary && older r x

abbrev pub of_device : String → IngressRow → Bool
of_device id r = r.device_id == id

-- The column ingress_port of a device, with 0 for null.
abbrev pub nullable_port : ℤ → Option ℤ
nullable_port port = if port == pos 0 then none else some port

abbrev pub ingress_row : String → Bytes → DeviceIngress → IngressRow
ingress_row id cipher i = record {
  device_id = id;
  port = i.port;
  method = i.method;
  password_cipher = cipher;
  is_primary = i.primary;
  created_at = i.created_at;
}

-- What the columns keep of the times of an ingress and of a device.
abbrev pub kept_ingress : (Time → Time) → DeviceIngress → DeviceIngress
kept_ingress keeps i = record i { created_at = keeps i.created_at }

abbrev pub kept_device : (Time → Time) → Device → Device
kept_device keeps d = record d { created_at = keeps d.created_at; updated_at = keeps d.updated_at }

abbrev pub device_row : Device → Option Bytes → DeviceRow
device_row d cipher = record {
  id = d.id;
  username = d.username;
  password_hash = d.password_hash;
  ingress_port = nullable_port d.ingress_port;
  ingress_method = d.ingress_method;
  ingress_password_cipher = cipher;
  enabled = d.enabled;
  created_at = d.created_at;
  updated_at = d.updated_at;
}

abbrev pub scanned_ingress : IngressRow → String → DeviceIngress
scanned_ingress r password = record {
  port = r.port;
  method = r.method;
  password = password;
  primary = r.is_primary;
  created_at = r.created_at;
}

abbrev pub scanned_device : DeviceRow → String → List DeviceIngress → Device
scanned_device r password ingresses = record {
  id = r.id;
  username = r.username;
  password_hash = r.password_hash;
  ingress_port = coalesce r.ingress_port (pos 0);
  ingress_method = r.ingress_method;
  ingress_password = password;
  ingresses = ingresses;
  enabled = r.enabled;
  created_at = r.created_at;
  updated_at = r.updated_at;
}

abbrev pub some_cipher : Result Failure Bytes → Result Failure (Option Bytes)
some_cipher (ok c) = ok (some c)
some_cipher (err e) = err e

abbrev rotated_row : Bytes → Time → DeviceRow → DeviceRow
rotated_row cipher now r = record r { ingress_password_cipher = some cipher; updated_at = now }

-- What follows a commit: the end of the method, on the tables that the commit leaves.
abbrev pub then_read :
    {A B : Type 0}
    → Database × Result Failure A
    → (Database → A → Result Failure B)
    → Database × Result Failure B
then_read (db, err e) f = (db, err e)
then_read (db, ok x) f = (db, f db x)

-- A statement outside a transaction, and then the rest of the method.
abbrev pub then_auto :
    {A : Type 0}
    → Database × Result Failure (Unit {0})
    → (Database → Database × Result Failure A)
    → Database × Result Failure A
then_auto (db, err e) f = (db, err e)
then_auto (db, ok x) f = f db

-- The end of the transaction of DeleteDeviceIngress, when the removed ingress was primary or not.
unfoldable pub promote_next :
    Session → String → Bool → Database → Result Failure (Database × (Unit {0}))
promote_next s id false db = raw (s.answer 3) (touch_device id s.now db) >>= λ db'. ok (db', tt)
promote_next s id true db =
    mapped (s.answer 3) (found (head (order_by older (select (of_device id) db.device_ingresses))))
    >>= λ next. raw (s.answer 4) (set_primary id next.port db) >>= λ db₁.
        raw (s.answer 5) (set_legacy id next s.now db₁) >>= λ db₂. ok (db₂, tt)

unfoldable pub delete_body :
    Session → String → ℤ → Database → Result Failure (Database × (Unit {0}))
delete_body s id port db = mapped (s.answer 0) (found (first (is_device id) db.devices)) >>= λ r.
    mapped (s.answer 1) (ok (count (of_device id) db.device_ingresses)) >>= λ n.
    if leb n 1
    then err conflict
    else mapped (s.answer 2) (found (first (is_ingress id port) db.device_ingresses)) >>= λ i.
        promote_next s id i.is_primary
          (record db { device_ingresses = unless (is_ingress id port) db.device_ingresses })

module _ (a : Aead) where
  -- The loop of loadDeviceIngresses.
  unfoldable pub decrypt_rows : List IngressRow → Result Failure (List DeviceIngress)
  decrypt_rows [] = ok []
  decrypt_rows (r ∷ rs) = decrypt_text a r.password_cipher >>= λ password.
      decrypt_rows rs >>= λ out. ok (scanned_ingress r password ∷ out)

  unfoldable pub load_device_ingresses :
      Outcome → Database → String → Result Failure (List DeviceIngress)
  load_device_ingresses o db id =
      raw o (ok (order_by primary_first (select (of_device id) db.device_ingresses)))
      >>= decrypt_rows

  -- A cipher that is null or empty stands for no password.
  unfoldable pub decrypt_nullable : Option Bytes → Result Failure String
  decrypt_nullable none = ok ""
  decrypt_nullable (some []) = ok ""
  decrypt_nullable (some (b ∷ bs)) = decrypt_text a (b ∷ bs)

  unfoldable pub get_device : Outcome → Outcome → Database → String → Result Failure Device
  get_device o next db id = mapped o (found (first (is_device id) db.devices)) >>= λ r.
      decrypt_nullable r.ingress_password_cipher >>= λ password.
      load_device_ingresses next db id >>= λ ingresses. ok (scanned_device r password ingresses)

  unfoldable pub encrypt_legacy : Bytes → String → Result Failure (Option Bytes)
  encrypt_legacy random password =
      if password == "" then ok none else some_cipher (encrypt_text a random password)

  -- The loop of CreateDevice, from the k-th ingress on.
  unfoldable pub insert_ingresses :
      Session → ℕ → String → List DeviceIngress → Database → Result Failure (Database × (Unit {0}))
  insert_ingresses s k id [] db = ok (db, tt)
  insert_ingresses s k id (i ∷ is) db = encrypt_text a (s.random (suc k)) i.password >>= λ cipher.
      mapped (s.answer (suc k)) (insert_ingress (ingress_row id cipher (kept_ingress s.keeps i)) db)
      >>= λ db'. insert_ingresses s (suc k) id is db'

  unfoldable pub create_body :
      Session → Device → Option Bytes → Database → Result Failure (Database × (Unit {0}))
  create_body s d cipher db =
      mapped (s.answer 0) (insert_device (device_row (kept_device s.keeps d) cipher) db) >>= λ db'.
      insert_ingresses s 0 d.id (device_ingresses d) db'

  unfoldable pub create_device : Session → Database → Device → Database × Result Failure (Unit {0})
  create_device s db d = elim (encrypt_legacy (s.random 0) d.ingress_password) [
    | err e ↦ (db, err e)
    | ok cipher ↦ transact s db (create_body s d cipher)
  ]

  -- The two updates of UpdateDeviceCredential, the first of which returns the row.
  unfoldable pub rotate_body :
      Session → String → Bytes → Database → Result Failure (Database × DeviceRow)
  rotate_body s id cipher db =
      mapped (s.answer 0) (found (first (is_device id) db.devices)) >>= λ r. raw (s.answer 1) (
        ok (
          record db {
            devices = update (is_device id) (rotated_row cipher s.now) db.devices;
            device_ingresses =
                update (λ i. i.device_id == id && i.is_primary)
                  (λ i. record i { password_cipher = cipher }) db.device_ingresses;
          },
          rotated_row cipher s.now r,
        ))

  unfoldable pub update_device_credential :
      Session → Database → String → String → Database × Result Failure Device
  update_device_credential s db id password = elim (encrypt_text a (s.random 0) password) [
    | err e ↦ (db, err e)
    | ok cipher ↦ then_read (transact s db (rotate_body s id cipher)) (λ db' r.
        load_device_ingresses (s.answer 2) db' id >>= λ ingresses.
        ok (scanned_device r password ingresses))
  ]

  unfoldable pub add_device_ingress :
      Session → Database → String → DeviceIngress → Database × Result Failure Device
  add_device_ingress s db id i = elim (encrypt_text a (s.random 0) i.password) [
    | err e ↦ (db, err e)
    | ok cipher ↦
        then_auto
          (auto map_err (s.answer 0) db (
            insert_ingress
              (ingress_row id cipher (kept_ingress s.keeps (record i { primary = false }))) db))
          (λ db₁.
            then_auto (auto from_sql (s.answer 1) db₁ (touch_device id s.now db₁))
              (λ db₂. (db₂, get_device (s.answer 2) (s.answer 3) db₂ id)))
  ]

  unfoldable pub delete_device_ingress :
      Session → Database → String → ℤ → Database × Result Failure Device
  delete_device_ingress s db id port =
      then_read (transact s db (delete_body s id port))
        (λ db' x. get_device (s.answer 6) (s.answer 7) db' id)

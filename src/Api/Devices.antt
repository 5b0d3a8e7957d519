-- ===== src/Api/Devices.antt =====
-- createDevice of internal/control/api.go on the store in memory. The random token, the generated password and
-- the draws of randomInt, by attempt, are arguments.
pub mod Created
use Prim.Native.Char.{code}
use Prim.Native.String.{count}
use proxy_mesh.Prelude.{
  ℕ, zero, suc, ◌+◌, ◌<◌, ◌≤◌, ℤ, pos, ◌+ℤ◌, ◌-ℤ◌, ◌≤ℤ◌, ◌<ℤ◌, String, Bool, true, false, ◌||◌,
  ◌&&◌, not, Option, none, some, List, [], ◌==◌, string_eq, int_eq, nat_eq, ltb_ℤ, leb_ℤ, leb,
  if◌then◌else◌, Result, ok, err, ◌≡◌, ◌≢◌, ◌⊎◌, inl, inr, refl, subst, ap, sym, ◌∙◌, Result-cases,
  Bool-cases, beq_ℤ_iff, arith,
}
use proxy_mesh.Prelude.Map.{lookup}
use proxy_mesh.Model.{Device, Time, zero_device}
use proxy_mesh.SsConfig.{
  SsLibrary, SsError, IsValid, validate-IsValid, validate, generate_password, legacy_aes_256_gcm,
}
use proxy_mesh.Store.{Memory, StoreError, conflict, get_device}
use proxy_mesh.Store
use proxy_mesh.Api.{Api, store_status}

pub record CreateDevice : Type 0 where
  pub id : String
  pub method : String
  pub password : String
  pub listen_port : ℤ

-- What is random in one request.
pub record Draws : Type 0 where
  pub token : String
  pub password : String
  pub port : ℕ → ℕ

abbrev is_alphanumeric : ℕ → Bool
is_alphanumeric c = leb 48 c && leb c 57 || leb 65 c && leb c 90 || leb 97 c && leb c 122

abbrev is_id_char : ℕ → Bool
is_id_char c = is_alphanumeric c || c == 46 || c == 95 || c == 45

unfoldable pub all_id_chars : String → Bool
all_id_chars String.[] = true
all_id_chars (String.◌∷◌ c s) = is_id_char (code c) && all_id_chars s

-- validDeviceID: a letter or digit, and at most 63 more letters, digits, dots, underscores or hyphens.
unfoldable pub valid_device_id : String → Bool
unfolding all_id_chars
valid_device_id String.[] = false
valid_device_id (String.◌∷◌ c s) = is_alphanumeric (code c) && leb (count s) 63 && all_id_chars s

abbrev pub on_port : Api → (ℕ → ℕ) → ℕ → Device → Device
on_port a draws k d = record d { ingress_port = a.ingress_port_start +ℤ pos (draws k) }

abbrev is_conflict : Result StoreError (Unit {0}) → Bool
is_conflict (err Store.conflict) = true
is_conflict (err Store.not_found) = false
is_conflict (err Store.panicked) = false
is_conflict (ok _) = false

-- The store, the status, and the device of a successful response.
abbrev pub Response : Type 0 → Type 0
Response F = Memory F × ℕ × Option Device

abbrev pub or_default : String → String → String
or_default given default = if given == "" then default else given

abbrev password_of : CreateDevice → String → String → Result SsError String
password_of req method random =
    if req.password == "" then generate_password method random else ok req.password

abbrev new_device : String → String → String → Time → Device
new_device id method password now = record zero_device {
  id = id;
  username = id;
  ingress_method = method;
  ingress_password = password;
  enabled = true;
  created_at = now;
  updated_at = now;
}

abbrev pub IsIngressPort : ℤ → Type 0
IsIngressPort p = (pos 1024 ≤ℤ p) × (p ≤ℤ pos 65535)

abbrev is_bad_port : ℤ → Bool
is_bad_port p = not (p == pos 0) && (ltb_ℤ p (pos 1024) || ltb_ℤ (pos 65535) p)

module _ {F : Type 0} where
  -- The loop over the attempts that are left after the first one; attempt k tries the port that draw k gives.
  unfoldable pub create_on_free_port :
      Api → (ℕ → ℕ) → Device → ℕ → ℕ → Memory F → Memory F × Device × Result StoreError (Unit {0})
  create_on_free_port a draws d k zero m =
      let (m', result) = Store.create_device m (on_port a draws k d) in
      (m', on_port a draws k d, result)
  create_on_free_port a draws d k (suc left) m =
      let created = Store.create_device m (on_port a draws k d) in
      let again = create_on_free_port a draws d (k + 1) left created.0 in
      if is_conflict created.1 then again else (created.0, on_port a draws k d, created.1)

  abbrev create_on_port_given : Device → Memory F → Memory F × Device × Result StoreError (Unit {0})
  create_on_port_given d m = let created = Store.create_device m d in (created.0, d, created.1)

  -- The choice of the port, and the call of the store, with a number of attempts after the first one.
  unfoldable pub create_on_port :
      Api → (ℕ → ℕ) → Device → ℤ → ℕ → Memory F → Memory F × Device × Result StoreError (Unit {0})
  create_on_port a draws d listen_port left m =
      if listen_port == pos 0
      then create_on_free_port a draws d 0 left m
      else create_on_port_given (record d { ingress_port = listen_port }) m

  abbrev created_response : Memory F × Device × Result StoreError (Unit {0}) → Response F
  created_response (m, d, ok _) = (m, 201, some d)
  created_response (m, d, err e) = (m, store_status e, none)

  module _ (ss : SsLibrary) (a : Api) (draws : Draws) (now : Time) where
    -- createDevice after the password is there, with 64 attempts in all.
    unfoldable pub create_validated : String → String → String → ℤ → Memory F → Response F
    create_validated id method password listen_port m = elim (validate ss method password) [
      | err e ↦ (m, 400, none)
      | ok _ ↦
          if is_bad_port listen_port
          then (m, 400, none)
          else created_response
              (create_on_port a draws.port (new_device id method password now) listen_port 63 m)
    ]

    unfoldable pub create_device : CreateDevice → Memory F → Response F
    create_device req m =
        let id = or_default req.id draws.token in
        let method = or_default req.method legacy_aes_256_gcm in
        if not (valid_device_id id)
        then (m, 400, none)
        else elim (password_of req method draws.password) [
          | err e ↦ (m, 400, none)
          | ok password ↦ create_validated id method password req.listen_port m
        ]

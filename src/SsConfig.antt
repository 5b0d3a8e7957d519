-- ===== src/SsConfig.antt =====
-- The check of Shadowsocks credentials of internal/ssconfig/credentials.go. The go-shadowsocks2 library is
-- a parameter: whether its NewServerConfig takes a method and a password, and whether the server of such a
-- configuration initialises.
use Prim.Native.String.{len}
use proxy_mesh.Prelude.{
  String, Bool, true, not, ◌&&◌, ◌||◌, ◌==◌, string_eq, if◌then◌else◌, ltb, Result, ok, err, ◌≡◌,
  ◌⊎◌, ◌≤◌, ◌≢◌, eq_iff, arith,
}

pub record SsLibrary : Type 0 where
  pub new_server_config : String → String → Bool
  pub server_init : String → String → Bool

pub data SsError : Type 0 where
  unsupported_method : SsError
  password_required : SsError
  password_too_short : SsError
  invalid_password : SsError
  server_failed : SsError

abbrev pub legacy_aes_256_gcm : String
legacy_aes_256_gcm = "aes-256-gcm"

abbrev pub blake3_aes_128_gcm : String
blake3_aes_128_gcm = "2022-blake3-aes-128-gcm"

module _ (ss : SsLibrary) where
  unfoldable pub validate : String → String → Result SsError (Unit {0})
  validate method password =
      if not (method == legacy_aes_256_gcm || method == blake3_aes_128_gcm)
      then err unsupported_method
      else if password == ""
      then err password_required
      else if method == legacy_aes_256_gcm && ltb (len password) 8
      then err password_too_short
      else if not (ss.new_server_config method password)
      then err invalid_password
      else ok tt

  -- What a validated pair of method and password satisfies.
  pub record IsValid (method password : String) : Type 0 where
    pub supported : (method ≡ legacy_aes_256_gcm) ⊎ (method ≡ blake3_aes_128_gcm)
    pub present : password ≢ ""
    pub long : (method ≢ legacy_aes_256_gcm) ⊎ (8 ≤ len password)
    pub accepted : ss.new_server_config method password ≡ true

  -- Validate accepts exactly the supported methods with a password that is not empty, has 8 bytes for the
  -- legacy method, and is taken by the library.
  pub validate-IsValid :
      (method password : String) → validate method password ≡ ok tt → IsValid method password
  unfolding validate
  validate-IsValid method password h = record {
    supported = ground (arith, eq_iff method legacy_aes_256_gcm, eq_iff method blake3_aes_128_gcm);
    present = ground (arith, eq_iff password "");
    long = ground (arith, eq_iff method legacy_aes_256_gcm);
    accepted = ground arith;
  }

  pub validate_of-IsValid :
      (method password : String) → IsValid method password → validate method password ≡ ok tt
  unfolding validate
  validate_of-IsValid method password v = ground (
    arith,
    eq_iff method legacy_aes_256_gcm,
    eq_iff method blake3_aes_128_gcm,
    eq_iff password "",
    v.supported,
    v.long,
  )

-- GeneratePassword: the random bytes, in their encoding, are an argument.
unfoldable pub generate_password : String → String → Result SsError String
generate_password method random =
    if method == legacy_aes_256_gcm || method == blake3_aes_128_gcm
    then ok random
    else err unsupported_method

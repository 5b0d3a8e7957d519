-- ===== src/Cryptox.antt =====
-- The cipher of internal/cryptox/cipher.go. AES-GCM, SHA-256 and base64 are parameters, and so are the bytes
-- that crypto/rand gives.
use proxy_mesh.Prelude.{
  [], ◌∷◌, ℕ, ◌≤◌, String, Option, none, some, ◌++◌, ◌==◌, nat_eq, string_eq, if◌then◌else◌, Result,
  ok, err, length, ◌≡◌, refl, arith, ok-injective, sym, subst, ◌∙◌, ◌⊎◌, inl, inr, ◌<◌,
}
use proxy_mesh.Prelude.Bytes.{
  Bytes, bytes_of, read_full, read_full-append, read_full-enough, read_full-short,
}

-- cipher.AEAD: Seal and Open of a nonce and a text, with no additional data.
pub record Aead : Type 0 where
  pub nonce_size : ℕ
  pub seal : Bytes → Bytes → Bytes
  pub open_sealed : Bytes → Bytes → Option Bytes

pub data CipherError : Type 0 where
  key_required random_failed too_short not_authentic : CipherError

-- The packages that New calls: base64 decoding, SHA-256, and AES-GCM with a key.
pub record Crypto : Type 0 where
  pub base64 : String → Option Bytes
  pub sha256 : Bytes → Bytes
  pub new_gcm : Bytes → Option Aead

-- What Open undoes: what Seal made with the same nonce.
pub record Opens (a : Aead) : Type 0 where
  pub open_sealed-seal :
      (nonce plain : Bytes) → a.open_sealed nonce (a.seal nonce plain) ≡ some plain

-- The key of 32 bytes: the decoded one if it has this length, else the hash.
unfoldable pub raw_key : Crypto → String → Bytes
raw_key c key = elim (c.base64 key) [
  | none ↦ c.sha256 (bytes_of key)
  | some raw ↦ if length raw == 32 then raw else c.sha256 (bytes_of key)
]

abbrev opened : Option Aead → Result CipherError Aead
opened none = err key_required
opened (some a) = ok a

unfoldable pub new : Crypto → String → Result CipherError Aead
new c key = if key == "" then err key_required else opened (c.new_gcm (raw_key c key))

-- `random` is what is left to read of rand.Reader.
unfoldable pub encrypt : Aead → Bytes → Bytes → Result CipherError Bytes
encrypt a random plain = elim (read_full a.nonce_size random) [
  | none ↦ err random_failed
  | some (nonce, rest) ↦ ok (nonce ++ a.seal nonce plain)
]

abbrev authentic : Option Bytes → Result CipherError Bytes
authentic none = err not_authentic
authentic (some plain) = ok plain

-- The value is split at the size of the nonce.
unfoldable pub decrypt : Aead → Bytes → Result CipherError Bytes
decrypt a value = elim (read_full a.nonce_size value) [
  | none ↦ err too_short
  | some (nonce, sealed) ↦ authentic (a.open_sealed nonce sealed)
]

decrypt-append :
    (a : Aead) (nonce sealed : Bytes)
    → length nonce ≡ a.nonce_size
    → decrypt a (nonce ++ sealed) ≡ authentic (a.open_sealed nonce sealed)
unfolding decrypt
decrypt-append a nonce sealed h = rw (sym h, read_full-append nonce sealed, decrypt) refl

-- If enough random bytes are left for the nonce, Encrypt succeeds, and Decrypt gives the text back.
pub encrypt-decrypt :
    (a : Aead) (random plain : Bytes)
    → Opens a
    → a.nonce_size ≤ length random
    → (value : Bytes) × (encrypt a random plain ≡ ok value) × (decrypt a value ≡ ok plain)
unfolding encrypt
encrypt-decrypt a random plain o h =
    let found = read_full-enough a.nonce_size random h in
    let nonce = found.0 in
    (
      nonce ++ a.seal nonce plain,
      rw (found.2, encrypt) refl,
      rw (decrypt-append a nonce (a.seal nonce plain) found.3, o.open_sealed-seal nonce plain) refl,
    )

le_or_lt : (m n : ℕ) → (m ≤ n) ⊎ (n < m)
le_or_lt m n = ground arith

encrypt_short :
    (a : Aead) (random plain : Bytes)
    → length random < a.nonce_size
    → encrypt a random plain ≡ err random_failed
unfolding encrypt
encrypt_short a random plain h = rw (read_full-short a.nonce_size random h, encrypt) refl

-- What Encrypt gives, whenever it succeeds, Decrypt gives back.
pub decrypt-encrypt :
    (a : Aead) (random plain : Bytes) {value : Bytes}
    → Opens a
    → encrypt a random plain ≡ ok value
    → decrypt a value ≡ ok plain
decrypt-encrypt a random plain o h = elim (le_or_lt a.nonce_size (length random)) [
  | inl enough ↦
      let made = encrypt-decrypt a random plain o enough in
      subst (λ v. decrypt a v ≡ ok plain) (ok-injective (sym made.1 ∙ h)) made.2
  | inr short ↦ absurd (cc (encrypt_short a random plain short))
]

length-append : (xs ys : Bytes) → length xs ≤ length (xs ++ ys)
length-append [] ys = omega arith
length-append (x ∷ xs) ys = omega (arith, length-append xs ys)

-- With a nonce, no ciphertext is empty.
pub encrypt-nonempty :
    (a : Aead) (random plain : Bytes) {value : Bytes}
    → 0 < a.nonce_size
    → encrypt a random plain ≡ ok value
    → 0 < length value
unfolding encrypt
encrypt-nonempty a random plain n h = elim (le_or_lt a.nonce_size (length random)) [
  | inl enough ↦
      let found = read_full-enough a.nonce_size random enough in
      let made : encrypt a random plain ≡ ok (found.0 ++ a.seal found.0 plain) =
        rw (found.2, encrypt) refl in
      subst (λ v. 0 < length v) (ok-injective (sym made ∙ h))
        (omega (arith, length-append found.0 (a.seal found.0 plain), found.3))
  | inr short ↦ absurd (cc (encrypt_short a random plain short))
]

-- ===== src/Postgres/Answers.antt =====
-- What a statement, a transaction or an encryption of internal/store/postgres.go that succeeds says.
use proxy_mesh.Prelude.{
  String, Result, ok, err, ◌≡◌, ◌⊎◌, inl, inr, refl, ◌≢◌, Bool-cases, ok-injective, sym, ◌∙◌, ap,
  Option, none, some,
}
use proxy_mesh.Prelude.Bytes.{Bytes, bytes_of, text_of-bytes_of}
use proxy_mesh.Cryptox.{Aead, Opens, CipherError, decrypt-encrypt}
use proxy_mesh.Postgres.{
  Database, Session, Outcome, done, refused, unanswered, SqlError, Failure, mapped, raw, committed,
  transact, parsed, ciphered, as_text, from_sql, other_error, encrypt_text, decrypt_text,
}

pub raw-ok : {A : Type 0} (o : Outcome) (r : Result SqlError A) {a : A} → raw o r ≡ ok a → r ≡ ok a
raw-ok done (ok a) h = ap ok (ok-injective h)
raw-ok done (err e) h = absurd (cc)
raw-ok refused r h = absurd (cc)
raw-ok unanswered r h = absurd (cc)

pub mapped-ok :
    {A : Type 0} (o : Outcome) (r : Result SqlError A) {a : A} → mapped o r ≡ ok a → r ≡ ok a
mapped-ok done (ok a) h = ap ok (ok-injective h)
mapped-ok done (err e) h = absurd (cc)
mapped-ok refused r h = absurd (cc)
mapped-ok unanswered r h = absurd (cc)

pub parsed-ok : {A : Type 0} (o : Option A) {a : A} → parsed o ≡ ok a → o ≡ some a
parsed-ok none h = absurd (cc)
parsed-ok (some a) h = ap some (ok-injective h)

pub committed-ok :
    {A : Type 0} (o : Outcome) (db : Database) (r : Result Failure (Database × A)) {db' : Database}
    {a : A}
    → committed o db r ≡ (db', ok a)
    → r ≡ ok (db', a)
committed-ok done db (ok (x, y)) h =
    let result = ok-injective (ap (λ p. p.1) h) in λ i. ok ((h i).0, result i)
committed-ok o db (err e) h = absurd (cc)
committed-ok refused db (ok x) h = absurd (cc)
committed-ok unanswered db (ok x) h = absurd (cc)

-- Either the transaction is begun, or its begin has failed.
begun_or_not :
    {A : Type 0} (s : Session) (db : Database) (body : Database → Result Failure (Database × A))
    → (transact s db body ≡ committed s.commit db (body db))
      ⊎ (transact s db body ≡ (db, err (from_sql other_error)))
begun_or_not s db body = elim (Bool-cases s.begins) [
  | inl b ↦ inl (rw b refl)
  | inr b ↦ inr (rw b refl)
]

pub transact-ok :
    {A : Type 0} (s : Session) (db : Database) (body : Database → Result Failure (Database × A))
    {db' : Database} {a : A}
    → transact s db body ≡ (db', ok a)
    → body db ≡ ok (db', a)
transact-ok s db body h = elim (begun_or_not s db body) [
  | inl e ↦ committed-ok s.commit db (body db) (sym e ∙ h)
  | inr e ↦ absurd (cc (ap (λ p. p.1) (sym e ∙ h)))
]

committed-unchanged :
    {A : Type 0} (o : Outcome) (db : Database) (r : Result Failure (Database × A)) (e : Failure)
    → o ≢ unanswered
    → (committed o db r).1 ≡ err e
    → (committed o db r).0 ≡ db
committed-unchanged o db (err x) e lost h = refl
committed-unchanged done db (ok (x, y)) e lost h = absurd (cc)
committed-unchanged refused db (ok (x, y)) e lost h = refl
committed-unchanged unanswered db (ok (x, y)) e lost h = absurd (lost refl)

-- A transaction that fails leaves the tables as they were, unless the answer to its commit was lost.
pub transact-unchanged :
    {A : Type 0} (s : Session) (db : Database) (body : Database → Result Failure (Database × A))
    (e : Failure)
    → s.commit ≢ unanswered
    → (transact s db body).1 ≡ err e
    → (transact s db body).0 ≡ db
transact-unchanged s db body e lost h = elim (begun_or_not s db body) [
  | inl b ↦
      ap (λ p. p.0) b ∙ committed-unchanged s.commit db (body db) e lost (ap (λ p. p.1) (sym b) ∙ h)
  | inr b ↦ ap (λ p. p.0) b
]

pub ciphered-ok : {A : Type 0} (r : Result CipherError A) {a : A} → ciphered r ≡ ok a → r ≡ ok a
ciphered-ok (ok a) h = ap ok (ok-injective h)
ciphered-ok (err e) h = absurd (cc)

pub decrypt_text-encrypt_text :
    (a : Aead) (random : Bytes) (s : String) {cipher : Bytes}
    → Opens a
    → encrypt_text a random s ≡ ok cipher
    → decrypt_text a cipher ≡ ok s
unfolding decrypt_text encrypt_text
decrypt_text-encrypt_text a random s o h =
    let plain = decrypt-encrypt a random (bytes_of s) o (ciphered-ok _ h) in
    ap as_text plain ∙ ap ok (text_of-bytes_of s)

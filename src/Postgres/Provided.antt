-- ===== src/Postgres/Provided.antt =====
-- UpsertProvider and GetProvider of internal/store/postgres.go.
use proxy_mesh.Prelude.{
  pos, true, ◌&&◌, some, List, Result, ok, err, any, leb_ℤ, ◌≡◌, refl, sym, ◌∙◌, ap, subst, bind-ok,
  granted_if, ok-injective, Result-cases, Bool-cases, inl, inr, eq_iff, arith,
}
use proxy_mesh.Prelude.Bytes.{Bytes}
use proxy_mesh.Prelude.Json.{Parses}
use proxy_mesh.Cryptox.{Opens, encrypt, decrypt, decrypt-encrypt}
use proxy_mesh.Provider.{Definition}
use proxy_mesh.Postgres.{
  Database, ProviderRow, Session, done, Backend, Failure, SqlError, other_error, from_sql, auto,
  Outcome, refused, unanswered, ciphered, parsed,
}
use proxy_mesh.Postgres.Rows.{first, first-update}
use proxy_mesh.Postgres.Others.{
  upsert, is_provider, put_provider, provider_row, provider_columns, upsert_provider, get_provider,
}
use proxy_mesh.Postgres.Answers.{ciphered-ok, parsed-ok}

first-upsert :
    (row : ProviderRow) (rows : List ProviderRow)
    → first (is_provider row.id) (upsert (is_provider row.id) row rows) ≡ some row
unfolding first upsert
first-upsert row rows = elim (Bool-cases (any (is_provider row.id) rows)) [
  | inl e ↦ rw (e, upsert) (first-update (is_provider row.id) row rows same e)
  | inr e ↦ rw (e, upsert) (ground (arith, eq_iff row.id row.id))
]
  where
    same : is_provider row.id row ≡ true
    same = ground (arith, eq_iff row.id row.id)

auto-ok :
    (f : SqlError → Failure) (o : Outcome) (db : Database) (r : Result SqlError Database)
    {db' : Database}
    → auto f o db r ≡ (db', ok tt)
    → r ≡ ok db'
auto-ok f done db (ok x) h = ap ok (ap (λ w. w.0) h)
auto-ok f done db (err e) h = absurd (cc (ap (λ w. w.1) h))
auto-ok f refused db r h = absurd (cc (ap (λ w. w.1) h))
auto-ok f unanswered db (ok x) h = absurd (cc (ap (λ w. w.1) h))
auto-ok f unanswered db (err e) h = absurd (cc (ap (λ w. w.1) h))

module _ {F : Type 0} (b : Backend F) where
  put_provider-ok :
      (row : ProviderRow) (db : Database) {db' : Database}
      → put_provider row db ≡ ok db'
      → first (is_provider row.id) db'.proxy_providers ≡ some row
  unfolding put_provider
  put_provider-ok row db h =
      let put =
        granted_if (leb_ℤ (pos 0) row.weight && leb_ℤ row.weight (pos 10000)) other_error _ h in
      subst (λ x. first (is_provider row.id) x.proxy_providers ≡ some row) (ok-injective put.1)
        (first-upsert row db.proxy_providers)

  -- The columns of a definition hold it.
  record HoldsDefinition (d : Definition F) (row : ProviderRow) : Type 0 where
    config : Bytes
    secrets : Bytes
    cipher : Bytes
    columns : provider_row d config cipher ≡ row
    reads_config : b.config.unmarshal config ≡ some d.config
    opens : decrypt b.aead cipher ≡ ok secrets
    reads_secrets : b.texts.unmarshal secrets ≡ some d.secrets

  provider_columns-ok :
      (s : Session) (d : Definition F) {row : ProviderRow}
      → Opens b.aead
      → Parses b.texts d.secrets
      → Parses b.config d.config
      → provider_columns b s d ≡ ok row
      → HoldsDefinition d row
  provider_columns-ok s d o texts configs h =
      let config = bind-ok (parsed (b.config.marshal d.config)) _ h in
      let secrets = bind-ok (parsed (b.texts.marshal d.secrets)) _ config.2 in
      let cipher = bind-ok (ciphered (encrypt b.aead (s.random 0) secrets.0)) _ secrets.2 in
      record {
        config = config.0;
        secrets = secrets.0;
        cipher = cipher.0;
        columns = ok-injective cipher.2;
        reads_config = configs.unmarshal-marshal (parsed-ok _ config.1);
        opens = decrypt-encrypt b.aead (s.random 0) secrets.0 o (ciphered-ok _ cipher.1);
        reads_secrets = texts.unmarshal-marshal (parsed-ok _ secrets.1);
      }

  get_provider-row :
      (db : Database) (d : Definition F) (config secrets cipher : Bytes)
      → b.config.unmarshal config ≡ some d.config
      → decrypt b.aead cipher ≡ ok secrets
      → b.texts.unmarshal secrets ≡ some d.secrets
      → first (is_provider d.id) db.proxy_providers ≡ some (provider_row d config cipher)
      → get_provider b done db d.id ≡ ok d
  unfolding get_provider
  get_provider-row db d config secrets cipher c e t h = rw (h, c, e, t) refl

  upsert_provider-columns :
      (s : Session) (db : Database) (d : Definition F) {row : ProviderRow}
      → provider_columns b s d ≡ ok row
      → upsert_provider b s db d ≡ auto from_sql (s.answer 0) db (put_provider row db)
  unfolding upsert_provider
  upsert_provider-columns s db d e = rw (e, upsert_provider) refl

  upsert_provider-refused :
      (s : Session) (db : Database) (d : Definition F) {x : Failure}
      → provider_columns b s d ≡ err x
      → upsert_provider b s db d ≡ (db, err x)
  unfolding upsert_provider
  upsert_provider-refused s db d e = rw (e, upsert_provider) refl

  -- If UpsertProvider succeeds, then GetProvider gives the definition that was stored. Open undoes Seal, and
  -- what is marshalled is unmarshalled again.
  pub get_provider-upsert_provider :
      (s : Session) (db : Database) (d : Definition F) {db' : Database}
      → Opens b.aead
      → Parses b.texts d.secrets
      → Parses b.config d.config
      → upsert_provider b s db d ≡ (db', ok tt)
      → get_provider b done db' d.id ≡ ok d
  get_provider-upsert_provider s db d {db' = db'} o texts configs h =
      elim (Result-cases (provider_columns b s d)) [
        | inl (row, e) ↦
            let held = provider_columns-ok s d o texts configs e in
            let put =
              auto-ok from_sql (s.answer 0) db (put_provider row db)
                (sym (upsert_provider-columns s db d e) ∙ h) in
            get_provider-row db' d held.config held.secrets held.cipher held.reads_config held.opens
              held.reads_secrets
              (subst (λ (r : ProviderRow). first (is_provider r.id) db'.proxy_providers ≡ some r)
                (sym held.columns) (put_provider-ok row db put))
        | inr (x, e) ↦ absurd (cc (ap (λ w. w.1) (sym (upsert_provider-refused s db d e) ∙ h)))
      ]

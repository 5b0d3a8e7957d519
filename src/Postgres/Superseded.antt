-- ===== src/Postgres/Superseded.antt =====
-- The rows of device_routes through the two updates of ActivateRoute of internal/store/postgres.go.
use proxy_mesh.Prelude.{
  ℕ, ℤ, String, true, false, List, [], ◌∷◌, string_eq, int_eq, nat_eq, any, Bool-cases, inl, inr,
  ◌≡◌, refl, ◌∙◌, eq_iff, beq_ℤ_iff, arith,
}
use proxy_mesh.Model.{DeviceRoute, Time, route_active}
use proxy_mesh.Postgres.{RouteRow, Session, done}
use proxy_mesh.Postgres.Rows.{select, update, count, count-none, select-none, update-none}
use proxy_mesh.Postgres.Statements.{has_status, is_version, is_staged, superseded, activated}
use proxy_mesh.Postgres.RouteRows.{route_row}

-- The server does all that a call asks of it.
pub record IsAnswered (t : Session) : Type 0 where
  pub begun : t.begins ≡ true
  pub answered : (k : ℕ) → t.answer k ≡ done
  pub committed : t.commit ≡ done

pub any-superseded :
    (id : String) (version : ℤ) (now : Time) (rows : List RouteRow)
    → any (is_version id version) (update (has_status id route_active) (superseded now) rows)
      ≡ any (is_version id version) rows
unfolding update
any-superseded id version now [] = refl
any-superseded id version now (r ∷ rows) = ground (arith, any-superseded id version now rows)

pub superseded_not-active :
    (id : String) (now : Time) (r : RouteRow)
    → has_status id route_active (superseded now r) ≡ false
superseded_not-active id now r = ground arith

pub none_active :
    (id : String) (now : Time) (rows : List RouteRow)
    → any (has_status id route_active) (update (has_status id route_active) (superseded now) rows)
      ≡ false
unfolding update
none_active id now [] = refl
none_active id now (r ∷ rows) = elim (Bool-cases (has_status id route_active r)) [
  | inl b ↦ rw (b, superseded_not-active id now r) (none_active id now rows)
  | inr b ↦ rw (b, b) (none_active id now rows)
]

pub none_staged :
    (id : String) (version : ℤ) (rows : List RouteRow)
    → any (is_version id version) rows ≡ false
    → any (is_staged id version) rows ≡ false
none_staged id version [] h = refl
none_staged id version (r ∷ rows) h = ground (arith, none_staged id version rows)

-- The rows after both updates, when the version is that of the first row, which is pending, and of no other.
abbrev pub later : String → Time → List RouteRow → List RouteRow
later id now rows = update (has_status id route_active) (superseded now) rows

pub supersede-route_row :
    (r : DeviceRoute) (now : Time) (rows : List RouteRow)
    → later r.device_id now (route_row r ∷ rows) ≡ route_row r ∷ later r.device_id now rows
unfolding update
supersede-route_row r now rows = ground (arith, eq_iff r.device_id r.device_id)

pub update-route_row :
    (r : DeviceRoute) (now : Time) (rows : List RouteRow)
    → any (is_version r.device_id r.version) rows ≡ false
    → update
        (is_staged r.device_id r.version)
        (activated now)
        (route_row r ∷ later r.device_id now rows)
      ≡ activated now (route_row r) ∷ later r.device_id now rows
unfolding update
update-route_row r now rows h =
    let staged : is_staged r.device_id r.version (route_row r) ≡ true =
      ground (arith, eq_iff r.device_id r.device_id, beq_ℤ_iff r.version r.version) in
    rw
      (
        staged,
        update-none (is_staged r.device_id r.version) (activated now) (later r.device_id now rows) (
            none_staged r.device_id r.version (later r.device_id now rows)
              (any-superseded r.device_id r.version now rows ∙ h)),
      )
      refl

pub count-active :
    (r : DeviceRoute) (now : Time) (rows : List RouteRow)
    → count
        (has_status r.device_id route_active)
        (activated now (route_row r) ∷ later r.device_id now rows)
      ≡ 1
unfolding count
count-active r now rows = ground (
  arith,
  eq_iff r.device_id r.device_id,
  count-none (has_status r.device_id route_active) (later r.device_id now rows)
      (none_active r.device_id now rows),
)

pub count-pending :
    (r : DeviceRoute) (now : Time) (rows : List RouteRow)
    → any (is_version r.device_id r.version) rows ≡ false
    → count (is_staged r.device_id r.version) (route_row r ∷ later r.device_id now rows) ≡ 1
unfolding count
count-pending r now rows h = ground (
  arith,
  eq_iff r.device_id r.device_id,
  beq_ℤ_iff r.version r.version,
  count-none (is_staged r.device_id r.version) (later r.device_id now rows) (
      none_staged r.device_id r.version (later r.device_id now rows)
        (any-superseded r.device_id r.version now rows ∙ h)),
)

pub select-active :
    (r : DeviceRoute) (now : Time) (rows : List RouteRow)
    → select
        (has_status r.device_id route_active)
        (activated now (route_row r) ∷ later r.device_id now rows)
      ≡ activated now (route_row r) ∷ []
unfolding select
select-active r now rows = ground (
  arith,
  eq_iff r.device_id r.device_id,
  select-none (has_status r.device_id route_active) (later r.device_id now rows)
      (none_active r.device_id now rows),
)

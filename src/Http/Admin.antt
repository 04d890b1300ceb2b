-- ===== src/Http/Admin.antt =====
-- The routes of internal/httpserver/server.go that ask for the role `admin`: `requireSession` in
-- front, `registerSQLProfileHandlers` and `registerMigrationHandlers` behind it.
use Prim.Native.String
use modern_mcs.Prelude.{
  String, Bool, true, false, not, ◌||◌, [], ◌∷◌, Option, none, some, Result, ok, err, ◌==◌,
  if◌then◌else◌,
}
use modern_mcs.Text.{trim_prefix, trim_suffix, has_suffix, contains_char}
use modern_mcs.Auth.Types.{Session}
use modern_mcs.SqlProfile.Types.{Profile}
use modern_mcs.SqlProfile.Types as sqlprofile
use modern_mcs.Migrations.Types as migrations
use modern_mcs.Http.Types.{
  SqlProfileService, Deps, World, Request, fields, profile_items, profile_body, file_items,
  status_items, Response, Environment,
}
use modern_mcs.Http.Guard.{write_error, audit_req, require_session}
use modern_mcs.Http.Sessions.{no_content}

-- `errors.Is(err, sqlprofile.ErrNotFound)`
abbrev is_not_found : sqlprofile.Error → Bool
is_not_found sqlprofile.not_found = true
is_not_found _ = false

-- `err.Error()` where the error wraps `ErrInvalidInput`.
abbrev invalid_text : sqlprofile.Error → Option String
invalid_text (sqlprofile.invalid_input text) = some (String.◌++◌ "invalid sql profile input: " text)
invalid_text _ = none

module _ {B : Type 0} (env : Environment B) {A P M : Type 0} (deps : Deps A P M) where
  abbrev Handler : Type 0
  Handler = Request B → World A P M → Response × World A P M

  -- What every route does that asks for the role `admin`.
  unfoldable pub as_admin : (Session → Handler) → Handler
  unfolding require_session
  as_admin handler r w =
      let (guarded, w') = require_session env deps r "admin" w in
      elim guarded [ err response ↦ (response, w') | ok session ↦ handler session r w' ]

  unfoldable pub answer_create : Session → Result sqlprofile.Error Profile → Handler
  unfolding audit_req
  answer_create admin (ok created) r w = (
    record { status = 201; body = profile_body created },
    audit_req env deps r admin.username "sqlprofile.create" created.id "success" admin.id "" w,
  )
  answer_create admin (err e) r w = elim (invalid_text e) [
    | some text ↦ (write_error 400 text, w)
    | none ↦ (write_error 500 "create profile failed", w)
  ]

  -- The handler of `/v1/sql-profiles` behind `requireSession`.
  unfoldable pub profiles_as : Session → Handler
  unfolding answer_create
  profiles_as admin r w = elim deps.sql_profiles [
    | none ↦ (write_error 503 "sql profile service unavailable", w)
    | some svc ↦
        if r.method == "GET"
        then (record { status = 200; body = profile_items (svc.list w.profiles) }, w)
        else if r.method == "POST"
        then elim (env.decode_profile r.body) [
          | none ↦ (write_error 400 "invalid request body", w)
          | some req ↦
              let (answer, p) = svc.create r.acts_at r.id_bytes req w.profiles in
              answer_create admin answer r (record w { profiles = p })
        ]
        else (write_error 405 "method not allowed", w)
  ]

  unfoldable pub answer_get : Result sqlprofile.Error Profile → Response
  answer_get (ok p) = record { status = 200; body = profile_body p }
  answer_get (err e) =
      if is_not_found e
      then write_error 404 "profile not found"
      else write_error 500 "get profile failed"

  unfoldable pub answer_update : Session → Result sqlprofile.Error Profile → Handler
  unfolding audit_req
  answer_update admin (ok updated) r w = (
    record { status = 200; body = profile_body updated },
    audit_req env deps r admin.username "sqlprofile.update" updated.id "success" admin.id "" w,
  )
  answer_update admin (err e) r w = elim (invalid_text e) [
    | some text ↦ (write_error 400 text, w)
    | none ↦
        if is_not_found e
        then (write_error 404 "profile not found", w)
        else (write_error 500 "update profile failed", w)
  ]

  unfoldable pub answer_delete : Session → String → Result sqlprofile.Error (Unit {0}) → Handler
  unfolding audit_req
  answer_delete admin id (ok done) r w = (
    no_content,
    audit_req env deps r admin.username "sqlprofile.delete" id "success" admin.id "" w,
  )
  answer_delete admin id (err e) r w =
      if is_not_found e
      then (write_error 404 "profile not found", w)
      else (write_error 500 "delete profile failed", w)

  -- The switch over the method of `/v1/sql-profiles/`.
  unfoldable pub profile_with : SqlProfileService P → String → Session → Handler
  unfolding answer_get answer_update answer_delete
  profile_with svc id admin r w =
      if r.method == "GET"
      then (answer_get (svc.get id w.profiles), w)
      else if r.method == "PUT"
      then elim (env.decode_profile r.body) [
        | none ↦ (write_error 400 "invalid request body", w)
        | some req ↦
            let (answer, p) = svc.update r.acts_at id req w.profiles in
            answer_update admin answer r (record w { profiles = p })
      ]
      else if r.method == "DELETE"
      then (let (answer, p) = svc.delete id w.profiles in
          answer_delete admin id answer r (record w { profiles = p }))
      else (write_error 405 "method not allowed", w)

  -- The handler of `/v1/sql-profiles/` behind `requireSession`.
  unfoldable pub profile_as : Session → Handler
  unfolding profile_with
  profile_as admin r w = elim deps.sql_profiles [
    | none ↦ (write_error 503 "sql profile service unavailable", w)
    | some svc ↦
        let id = trim_prefix r.path "/v1/sql-profiles/" in
        if id == "" || contains_char id b'/'
        then (write_error 404 "profile not found", w)
        else profile_with svc id admin r w
  ]

  -- The handler of `/v1/system/migrations` behind `requireSession`.
  unfoldable pub migrations_as : Session → Handler
  unfolding audit_req
  migrations_as admin r w = elim deps.migrations [
    | none ↦ (write_error 503 "migration service unavailable", w)
    | some svc ↦
        if r.method == "GET"
        then elim (svc.list w.migrations) [
          | err e ↦ (write_error 500 "list migrations failed", w)
          | ok files ↦ (
            record { status = 200; body = file_items files },
            audit_req env deps r admin.username "migration.list" "" "success" admin.id "" w,
          )
        ]
        else (write_error 405 "method not allowed", w)
  ]

  -- The handler of `/v1/system/migrations/status` behind `requireSession`.
  unfoldable pub status_as : Session → Handler
  unfolding audit_req
  status_as admin r w = elim deps.migrations [
    | none ↦ (write_error 503 "migration service unavailable", w)
    | some svc ↦ elim (svc.status w.migrations) [
      | err e ↦ (write_error 500 "migration status failed", w)
      | ok items ↦ (
        record { status = 200; body = status_items items },
        audit_req env deps r admin.username "migration.status" "" "success" admin.id "" w,
      )
    ]
  ]

  unfoldable pub answer_apply : Session → String → Result migrations.Error (Unit {0}) → Handler
  unfolding audit_req
  answer_apply admin name (err e) r w = (
    write_error 400 "mark migration applied failed",
    audit_req env deps r admin.username "migration.apply" name "failed" admin.id
        (env.migration_error e) w,
  )
  answer_apply admin name (ok done) r w = (
    record { status = 200; body = fields (("status", "applied") ∷ ("name", name) ∷ []) },
    audit_req env deps r admin.username "migration.apply" name "success" admin.id "" w,
  )

  -- The handler of `/v1/system/migrations/` behind `requireSession`.
  unfoldable pub apply_as : Session → Handler
  unfolding answer_apply
  apply_as admin r w = elim deps.migrations [
    | none ↦ (write_error 503 "migration service unavailable", w)
    | some svc ↦
        let trimmed = trim_prefix r.path "/v1/system/migrations/" in
        let name = trim_suffix (trim_suffix trimmed "/apply") "/" in
        if not (has_suffix trimmed "/apply")
        then (write_error 404 "migration route not found", w)
        else if name == "" || contains_char name b'/'
        then (write_error 400 "invalid migration name", w)
        else (let (answer, m) = svc.mark_applied name r.acts_at w.migrations in
            answer_apply admin name answer r (record w { migrations = m }))
  ]

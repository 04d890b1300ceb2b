-- ===== src/Http/Wiring.antt =====
-- The services of the other packages as the interfaces of internal/httpserver/server.go, as
-- internal/app/app.go passes them to `httpserver.New`.
use modern_mcs.Prelude.{ℕ, List, some, true}
use modern_mcs.Codec.{Codec}
use modern_mcs.Auth.State.{Platform}
use modern_mcs.Auth.Service.{
  login, validate_token, logout, change_password, list_session_views, revoke_session_by_id,
}
use modern_mcs.Auth.State as auth
use modern_mcs.SqlProfile.Types.{Profile}
use modern_mcs.SqlProfile.Service as sqlprofile
use modern_mcs.Migrations.Types.{Directory, AppliedStore}
use modern_mcs.Migrations.Service as migrations
use modern_mcs.Http.Types.{AuthService, SqlProfileService, MigrationService, Deps}

abbrev pub auth_service : {U T B : Type 0} → Platform U T B → AuthService (auth.Service U T B)
auth_service p = record {
  login = login p;
  validate_token = validate_token p;
  logout = logout p;
  change_password = change_password p;
  list_session_views = list_session_views p;
  revoke_session_by_id = revoke_session_by_id p;
}

abbrev pub sql_profile_service :
    {B : Type 0} → Codec (List Profile) B → SqlProfileService (sqlprofile.Service B)
sql_profile_service json = record {
  create = sqlprofile.create json;
  list = sqlprofile.list;
  get = sqlprofile.get;
  update = sqlprofile.update json;
  delete = sqlprofile.delete json;
}

abbrev pub migration_service :
    {S : Type 0} → (List ℕ → List ℕ) → Directory → AppliedStore S → MigrationService S
migration_service sum256 dir store = record {
  list = λ s. migrations.list sum256 dir;
  status = migrations.status sum256 dir store;
  mark_applied = migrations.mark_applied sum256 dir store;
}

-- The `Deps` of `app.New`
abbrev pub app_deps :
    {U T B C S : Type 0}
    → Platform U T B
    → Codec (List Profile) C
    → (List ℕ → List ℕ)
    → Directory
    → AppliedStore S
    → Deps (auth.Service U T B) (sqlprofile.Service C) S
app_deps p json sum256 dir store = record {
  auth = some (auth_service p);
  sql_profiles = some (sql_profile_service json);
  migrations = some (migration_service sum256 dir store);
  has_audit = true;
}

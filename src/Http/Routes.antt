-- ===== src/Http/Routes.antt =====
-- `NewHandler` of internal/httpserver/server.go: which handler a path has. A pattern that ends in a
-- slash is for all paths below it, and the longest pattern wins. `http.ServeMux` redirects a path
-- that is not clean, so a path is clean here.
use modern_mcs.Prelude.{String, not, [], ◌∷◌, ◌==◌, if◌then◌else◌}
use modern_mcs.Text.{has_prefix}
use modern_mcs.Http.Types.{Deps, World, Request, fields, Response, Environment}
use modern_mcs.Http.Guard.{write_error}
use modern_mcs.Http.Sessions.{
  handle_login, handle_me, handle_logout, handle_change_password, list_as, revoke_as,
}
use modern_mcs.Http.Admin.{as_admin, profiles_as, profile_as, migrations_as, status_as, apply_as}

pub data Route : Type 0 where
  healthz readyz info login me logout change_password : Route
  sessions session profiles profile migrations migrations_status migrations_apply : Route
  other : Route

unfoldable pub route_of : String → Route
route_of path =
    if path == "/healthz"
    then healthz
    else if path == "/readyz"
    then readyz
    else if path == "/v1/info"
    then info
    else if path == "/v1/auth/login"
    then login
    else if path == "/v1/auth/me"
    then me
    else if path == "/v1/auth/logout"
    then logout
    else if path == "/v1/auth/change-password"
    then change_password
    else if path == "/v1/system/sessions"
    then sessions
    else if has_prefix path "/v1/system/sessions/"
    then session
    else if path == "/v1/sql-profiles"
    then profiles
    else if has_prefix path "/v1/sql-profiles/"
    then profile
    else if path == "/v1/system/migrations"
    then migrations
    else if path == "/v1/system/migrations/status"
    then migrations_status
    else if has_prefix path "/v1/system/migrations/"
    then migrations_apply
    else other

module _ {B : Type 0} (env : Environment B) {A P M : Type 0} (deps : Deps A P M) where
  -- A handler that looks at the method before it looks at the session.
  abbrev pub only :
      String
      → (Request B → World A P M → Response × World A P M)
      → Request B
      → World A P M
      → Response × World A P M
  only method handler r w =
      if not (r.method == method) then (write_error 405 "method not allowed", w) else handler r w

  unfoldable pub handle : Route → Request B → World A P M → Response × World A P M
  unfolding as_admin handle_login handle_me handle_logout handle_change_password list_as revoke_as
      profiles_as profile_as migrations_as status_as apply_as
  handle healthz r w = (record { status = 200; body = fields (("status", "ok") ∷ []) }, w)
  handle readyz r w = (record { status = 200; body = fields (("status", "ready") ∷ []) }, w)
  handle info r w = (
    record {
      status = 200;
      body = fields (("service", "modern-mcs-api") ∷ ("version", "0.1.0") ∷ []);
    },
    w,
  )
  handle login r w = handle_login env deps r w
  handle me r w = handle_me env deps r w
  handle logout r w = handle_logout env deps r w
  handle change_password r w = handle_change_password env deps r w
  handle sessions r w = only "GET" (as_admin env deps (list_as env deps)) r w
  handle session r w = only "DELETE" (as_admin env deps (revoke_as env deps)) r w
  handle profiles r w = as_admin env deps (profiles_as env deps) r w
  handle profile r w = as_admin env deps (profile_as env deps) r w
  handle migrations r w = as_admin env deps (migrations_as env deps) r w
  handle migrations_status r w = only "GET" (as_admin env deps (status_as env deps)) r w
  handle migrations_apply r w = only "POST" (as_admin env deps (apply_as env deps)) r w
  handle other r w = (env.fallback r, w)

  -- The handler that `NewHandler` returns.
  unfoldable pub serve : Request B → World A P M → Response × World A P M
  unfolding handle route_of
  serve r w = handle (route_of r.path) r w

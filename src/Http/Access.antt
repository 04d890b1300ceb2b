-- ===== src/Http/Access.antt =====
-- Who gets behind the routes of the role `admin`.
use modern_mcs.Prelude.{
  ℕ, String, ◌≡◌, refl, ap, subst, sym, ◌⊎◌, inl, inr, Bool, true, false, arith, some, ok, err,
  Result-cases, Option-cases, Bool-cases, ◌==◌, eq_iff,
}
use modern_mcs.Auth.Types.{Session}
use modern_mcs.Http.Types.{AuthService, Deps, World, Request, Response, Environment}
use modern_mcs.Http.Guard.{extract_bearer_token, has_role, check_role, require_session, write_error}
use modern_mcs.Http.Sessions.{list_as, revoke_as}
use modern_mcs.Http.Admin.{as_admin, profiles_as, profile_as, migrations_as, status_as, apply_as}
use modern_mcs.Http.Routes.{
  Route, healthz, readyz, info, login, me, logout, change_password, sessions, session, profiles,
  profile, migrations, migrations_status, migrations_apply, other, route_of, only, handle, serve,
}

abbrev pub is_admin_route : Route → Bool
is_admin_route healthz = false
is_admin_route readyz = false
is_admin_route info = false
is_admin_route login = false
is_admin_route me = false
is_admin_route logout = false
is_admin_route change_password = false
is_admin_route other = false
is_admin_route _ = true

abbrev pub IsDenialStatus : ℕ → Type 0
IsDenialStatus status = (status ≡ 401) ⊎ (status ≡ 403) ⊎ (status ≡ 405) ⊎ (status ≡ 503)

module _ {B : Type 0} (env : Environment B) {A P M : Type 0} (deps : Deps A P M)
    (r : Request B) where
  -- The request carries a token of the session, as the auth service says, and the session has the
  -- role, if one is asked for.
  abbrev pub Admits : String → World A P M → Session → Type 0
  Admits role w sess =
      (svc : AuthService A) × (token : String) × (deps.auth ≡ some svc)
      × (extract_bearer_token r.authorization ≡ some token)
      × ((svc.validate_token r.validated_at token w.auth).0 ≡ ok sess)
      × ((role ≡ "") ⊎ (has_role sess.roles role ≡ true))

  -- The response is an error, and nothing has happened but, at most, the check of the token.
  abbrev pub IsDenied : World A P M → Response × World A P M → Type 0
  IsDenied w (resp, w') =
      IsDenialStatus resp.status
      × (w'.profiles ≡ w.profiles)
      × (w'.migrations ≡ w.migrations)
      × (w'.audited ≡ w.audited)
      × ((w'.auth ≡ w.auth)
          ⊎ ((svc : AuthService A) × (token : String) × (deps.auth ≡ some svc)
              × (w'.auth ≡ (svc.validate_token r.validated_at token w.auth).1)))

  check_role_cases :
      (role : String) (sess : Session)
      → (check_role role sess ≡ err (write_error 403 "forbidden"))
        ⊎ ((check_role role sess ≡ ok sess) × ((role ≡ "") ⊎ (has_role sess.roles role ≡ true)))
  unfolding check_role
  check_role_cases role sess = elim (Bool-cases (has_role sess.roles role)) [
    | inl has ↦ inr (ground (arith, has), inr has)
    | inr lacks ↦ elim (Bool-cases (role == "")) [
      | inl any ↦ inr (ground (arith, any), inl ((eq_iff role "").0 any))
      | inr named ↦ inl (ground (arith, lacks, named))
    ]
  ]

  pub require_session_cases :
      (role : String) (w : World A P M)
      → ((resp : Response) × (w' : World A P M) × (require_session env deps r role w
            ≡ (err resp, w'))
          × IsDenied w (resp, w'))
        ⊎ ((sess : Session) × (w' : World A P M) × Admits role w sess
            × (require_session env deps r role w ≡ (ok sess, w'))
            × (w'.audited ≡ w.audited))
  unfolding require_session
  require_session_cases role w = elim (Option-cases deps.auth) [
    | inl absent ↦ inl (
      write_error 503 "auth service unavailable",
      w,
      rw (absent, require_session) refl,
      (inr (inr (inr refl)), refl, refl, refl, inl refl),
    )
    | inr (svc, present) ↦ elim (Option-cases (extract_bearer_token r.authorization)) [
      | inl missing ↦ inl (
        write_error 401 "missing or invalid bearer token",
        w,
        rw (present, require_session) (rw missing refl),
        (inl refl, refl, refl, refl, inl refl),
      )
      | inr (token, given) ↦
          elim (Result-cases (svc.validate_token r.validated_at token w.auth).0) [
            | inr (e, invalid) ↦ inl (
              write_error 401 "invalid token",
              record w { auth = (svc.validate_token r.validated_at token w.auth).1 },
              rw (present, require_session) (rw given (rw invalid refl)),
              (inl refl, refl, refl, refl, inr (svc, token, present, refl)),
            )
            | inl (sess, valid) ↦ elim (check_role_cases role sess) [
              | inl lacks ↦ inl (
                write_error 403 "forbidden",
                record w { auth = (svc.validate_token r.validated_at token w.auth).1 },
                rw (present, require_session) (rw given (rw valid (rw lacks refl))),
                (inr (inl refl), refl, refl, refl, inr (svc, token, present, refl)),
              )
              | inr (goes_on, has) ↦ inr (
                sess,
                record w { auth = (svc.validate_token r.validated_at token w.auth).1 },
                (svc, token, present, given, valid, has),
                rw (present, require_session) (rw given (rw valid (rw goes_on refl))),
                refl,
              )
            ]
          ]
    ]
  ]

  pub as_admin-refused :
      (handler : Session → Request B → World A P M → Response × World A P M) (w w' : World A P M)
      (resp : Response)
      → require_session env deps r "admin" w ≡ (err resp, w')
      → as_admin env deps handler r w ≡ (resp, w')
  unfolding as_admin
  as_admin-refused handler w w' resp h = rw (ap (λ q. q.0) h, as_admin) (ap (λ q. (resp, q.1)) h)

  pub as_admin-admitted :
      (handler : Session → Request B → World A P M → Response × World A P M) (w w' : World A P M)
      (sess : Session)
      → require_session env deps r "admin" w ≡ (ok sess, w')
      → as_admin env deps handler r w ≡ handler sess r w'
  unfolding as_admin
  as_admin-admitted handler w w' sess h =
      rw (ap (λ q. q.0) h, as_admin) (ap (λ q. handler sess r q.1) h)

  as_admin_cases :
      (handler : Session → Request B → World A P M → Response × World A P M) (w : World A P M)
      → IsDenied w (as_admin env deps handler r w) ⊎ ((sess : Session) × Admits "admin" w sess)
  as_admin_cases handler w = elim (require_session_cases "admin" w) [
    | inl (resp, w', refused, denied) ↦
        inl (subst (IsDenied w) (sym (as_admin-refused handler w w' resp refused)) denied)
    | inr (sess, w', admitted, goes_on, silent) ↦ inr (sess, admitted)
  ]

  only_cases :
      (method : String) (handler : Request B → World A P M → Response × World A P M)
      (w : World A P M)
      → IsDenied w (handler r w) ⊎ ((sess : Session) × Admits "admin" w sess)
      → IsDenied w (only env deps method handler r w) ⊎ ((sess : Session) × Admits "admin" w sess)
  only_cases method handler w h = elim (Bool-cases (r.method == method)) [
    | inl same ↦ rw same h
    | inr differs ↦ inl (rw differs (inr (inr (inl refl)), refl, refl, refl, inl refl))
  ]

  handle_admin :
      (route : Route) (w : World A P M)
      → is_admin_route route ≡ true
      → IsDenied w (handle env deps route r w) ⊎ ((sess : Session) × Admits "admin" w sess)
  unfolding handle
  handle_admin sessions w h =
      only_cases "GET" (as_admin env deps (list_as env deps)) w
        (as_admin_cases (list_as env deps) w)
  handle_admin session w h =
      only_cases "DELETE" (as_admin env deps (revoke_as env deps)) w
        (as_admin_cases (revoke_as env deps) w)
  handle_admin profiles w h = as_admin_cases (profiles_as env deps) w
  handle_admin profile w h = as_admin_cases (profile_as env deps) w
  handle_admin migrations w h = as_admin_cases (migrations_as env deps) w
  handle_admin migrations_status w h =
      only_cases "GET" (as_admin env deps (status_as env deps)) w
        (as_admin_cases (status_as env deps) w)
  handle_admin migrations_apply w h =
      only_cases "POST" (as_admin env deps (apply_as env deps)) w
        (as_admin_cases (apply_as env deps) w)
  handle_admin _ w h = let bad : ⊥ = ground (arith, h) in absurd bad

  -- A request for a session, profile or migration route is answered with 401, 403, 405 or 503, and
  -- changes nothing beyond the check of its token, or it carries a bearer token whose session is
  -- valid and has the role `admin`.
  pub serve-admin :
      (w : World A P M)
      → is_admin_route (route_of r.path) ≡ true
      → IsDenied w (serve env deps r w) ⊎ ((sess : Session) × Admits "admin" w sess)
  unfolding serve
  serve-admin w h = handle_admin (route_of r.path) w h

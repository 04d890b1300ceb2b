-- ===== src/Http/Trace.antt =====
-- The id of a request in the audit log.
use Prim.Native.String
use modern_mcs.Prelude.{
  String, ◌≡◌, refl, ap, subst, sym, ◌⊎◌, inl, inr, true, arith, List, Bool-cases, Option-cases,
  ◌==◌, ◌||◌, ◌∙◌, Result,
}
use modern_mcs.Text.{has_prefix, trim_prefix, contains_char}
use modern_mcs.Text.Affix.{has_prefix-append}
use modern_mcs.Auth.Types.{Session}
use modern_mcs.SqlProfile.Types.{Profile}
use modern_mcs.SqlProfile.Types as sqlprofile
use modern_mcs.Http.Access.{require_session_cases, as_admin-admitted, as_admin-refused}
use modern_mcs.Http.Routes.{
  Route, healthz, readyz, info, login, me, logout, change_password, sessions, session, profiles,
  profile, migrations, migrations_status, migrations_apply, other, route_of, only, handle, serve,
}
use modern_mcs.Http.Types.{SqlProfileService, Deps, World, Event, Request, Response, Environment}
use modern_mcs.Http.Guard.{audit_req, audit_detail, join}
use modern_mcs.Http.Sessions.{
  handle_login, answer_login, handle_me, handle_logout, answer_logout, handle_change_password,
  change_with, answer_change, list_as, revoke_as, answer_revoke,
}
use modern_mcs.Http.Admin.{
  as_admin, profiles_as, answer_create, profile_as, profile_with, answer_update, answer_delete,
  migrations_as, status_as, apply_as, answer_apply,
}
use modern_mcs.Http.Audit.{newest, older}

-- The second log is the first, or has one event more, whose detail begins with the id.
abbrev pub Carries : String → List Event → List Event → Type 0
Carries id before after =
    (after ≡ before)
    ⊎ ((older after ≡ before) × (has_prefix (newest after).detail (String.◌++◌ "rid=" id) ≡ true))

module _ {B : Type 0} (env : Environment B) {A P M : Type 0} (deps : Deps A P M)
    (r : Request B) where
  abbrev CarriesId : World A P M → Response × World A P M → Type 0
  CarriesId w (resp, w') = Carries r.request_id w.audited w'.audited

  handle_login-Carries : (w : World A P M) → CarriesId w (handle_login env deps r w)
  unfolding handle_login answer_login audit_req audit_detail join
  handle_login-Carries w = grind (arith, has_prefix-append)

  handle_logout-Carries : (w : World A P M) → CarriesId w (handle_logout env deps r w)
  unfolding handle_logout answer_logout audit_req audit_detail join
  handle_logout-Carries w = grind (arith, has_prefix-append)

  handle_change_password-Carries :
      (w : World A P M) → CarriesId w (handle_change_password env deps r w)
  unfolding handle_change_password change_with answer_change audit_req audit_detail join
  handle_change_password-Carries w = grind (arith, has_prefix-append)

  list_as-Carries : (sess : Session) (w : World A P M) → CarriesId w (list_as env deps sess r w)
  unfolding list_as audit_req audit_detail join
  list_as-Carries sess w = grind (arith, has_prefix-append)

  revoke_as-Carries : (sess : Session) (w : World A P M) → CarriesId w (revoke_as env deps sess r w)
  unfolding revoke_as answer_revoke audit_req audit_detail join
  revoke_as-Carries sess w = grind (arith, has_prefix-append)

  profiles_as-Carries :
      (sess : Session) (w : World A P M) → CarriesId w (profiles_as env deps sess r w)
  unfolding profiles_as answer_create audit_req audit_detail join
  profiles_as-Carries sess w = grind (arith, has_prefix-append)

  answer_update-Carries :
      (sess : Session) (a : Result sqlprofile.Error Profile) (w : World A P M)
      → CarriesId w (answer_update env deps sess a r w)
  unfolding answer_update audit_req audit_detail join
  answer_update-Carries sess a w = grind (arith, has_prefix-append)

  answer_delete-Carries :
      (sess : Session) (id : String) (a : Result sqlprofile.Error (Unit {0})) (w : World A P M)
      → CarriesId w (answer_delete env deps sess id a r w)
  unfolding answer_delete audit_req audit_detail join
  answer_delete-Carries sess id a w = grind (arith, has_prefix-append)

  profile_with-Carries :
      (svc : SqlProfileService P) (id : String) (sess : Session) (w : World A P M)
      → CarriesId w (profile_with env deps svc id sess r w)
  unfolding profile_with
  profile_with-Carries svc id sess w = elim (Bool-cases (r.method == "GET")) [
    | inl e ↦ rw e (inl refl)
    | inr e ↦ elim (Bool-cases (r.method == "PUT")) [
      | inl put ↦ elim (Option-cases (env.decode_profile r.body)) [
        | inl bad ↦ rw (e, put, bad) (inl refl)
        | inr (req, good) ↦
            rw (e, put, good)
              (answer_update-Carries sess (svc.update r.acts_at id req w.profiles).0
                (record w { profiles = (svc.update r.acts_at id req w.profiles).1 }))
      ]
      | inr put ↦ elim (Bool-cases (r.method == "DELETE")) [
        | inl del ↦
            rw (e, put, del)
              (answer_delete-Carries sess id (svc.delete id w.profiles).0
                (record w { profiles = (svc.delete id w.profiles).1 }))
        | inr del ↦ rw (e, put, del) (inl refl)
      ]
    ]
  ]

  profile_as-Carries :
      (sess : Session) (w : World A P M) → CarriesId w (profile_as env deps sess r w)
  unfolding profile_as
  profile_as-Carries sess w = elim (Option-cases deps.sql_profiles) [
    | inl absent ↦ rw (absent, profile_as) (inl refl)
    | inr (svc, there) ↦
        let id = trim_prefix r.path "/v1/sql-profiles/" in
        elim (Bool-cases (id == "" || contains_char id b'/')) [
          | inl bad ↦ rw (there, profile_as) (rw bad (inl refl))
          | inr good ↦ rw (there, profile_as) (rw good (profile_with-Carries svc id sess w))
        ]
  ]

  migrations_as-Carries :
      (sess : Session) (w : World A P M) → CarriesId w (migrations_as env deps sess r w)
  unfolding migrations_as audit_req audit_detail join
  migrations_as-Carries sess w = grind (arith, has_prefix-append)

  status_as-Carries : (sess : Session) (w : World A P M) → CarriesId w (status_as env deps sess r w)
  unfolding status_as audit_req audit_detail join
  status_as-Carries sess w = grind (arith, has_prefix-append)

  apply_as-Carries : (sess : Session) (w : World A P M) → CarriesId w (apply_as env deps sess r w)
  unfolding apply_as answer_apply audit_req audit_detail join
  apply_as-Carries sess w = grind (arith, has_prefix-append)

  as_admin-Carries :
      (handler : Session → Request B → World A P M → Response × World A P M)
      → ((sess : Session) (w : World A P M) → CarriesId w (handler sess r w))
      → (w : World A P M) → CarriesId w (as_admin env deps handler r w)
  as_admin-Carries handler carries w = elim (require_session_cases env deps r "admin" w) [
    | inl (resp, w', refused, (denied, kept, kept', silent, checked)) ↦
        subst (CarriesId w) (sym (as_admin-refused env deps r handler w w' resp refused))
          (inl silent)
    | inr (sess, w', admitted, goes_on, silent) ↦
        subst (CarriesId w) (sym (as_admin-admitted env deps r handler w w' sess goes_on)) (
          subst (λ before. Carries r.request_id before (handler sess r w').1.audited) silent
            (carries sess w'))
  ]

  handle_me-Carries : (w : World A P M) → CarriesId w (handle_me env deps r w)
  unfolding handle_me
  handle_me-Carries w = elim (Bool-cases (r.method == "GET")) [
    | inr e ↦ rw e (inl refl)
    | inl e ↦ elim (require_session_cases env deps r "" w) [
      | inl (resp, w', refused, (denied, kept, kept', silent, checked)) ↦
          rw (e, ap (λ q. q.0) refused) (inl (ap (λ q. q.1.audited) refused ∙ silent))
      | inr (sess, w', admitted, goes_on, silent) ↦
          rw (e, ap (λ q. q.0) goes_on) (inl (ap (λ q. q.1.audited) goes_on ∙ silent))
    ]
  ]

  only-Carries :
      (method : String) (handler : Request B → World A P M → Response × World A P M)
      (w : World A P M)
      → CarriesId w (handler r w)
      → CarriesId w (only env deps method handler r w)
  only-Carries method handler w h = elim (Bool-cases (r.method == method)) [
    | inl same ↦ rw same h
    | inr differs ↦ rw differs (inl refl)
  ]

  handle-Carries : (route : Route) (w : World A P M) → CarriesId w (handle env deps route r w)
  unfolding handle
  handle-Carries healthz w = inl refl
  handle-Carries readyz w = inl refl
  handle-Carries info w = inl refl
  handle-Carries login w = handle_login-Carries w
  handle-Carries me w = handle_me-Carries w
  handle-Carries logout w = handle_logout-Carries w
  handle-Carries change_password w = handle_change_password-Carries w
  handle-Carries sessions w =
      only-Carries "GET" (as_admin env deps (list_as env deps)) w
        (as_admin-Carries (list_as env deps) list_as-Carries w)
  handle-Carries session w =
      only-Carries "DELETE" (as_admin env deps (revoke_as env deps)) w
        (as_admin-Carries (revoke_as env deps) revoke_as-Carries w)
  handle-Carries profiles w = as_admin-Carries (profiles_as env deps) profiles_as-Carries w
  handle-Carries profile w = as_admin-Carries (profile_as env deps) profile_as-Carries w
  handle-Carries migrations w = as_admin-Carries (migrations_as env deps) migrations_as-Carries w
  handle-Carries migrations_status w =
      only-Carries "GET" (as_admin env deps (status_as env deps)) w
        (as_admin-Carries (status_as env deps) status_as-Carries w)
  handle-Carries migrations_apply w =
      only-Carries "POST" (as_admin env deps (apply_as env deps)) w
        (as_admin-Carries (apply_as env deps) apply_as-Carries w)
  handle-Carries other w = inl refl

  pub serve-Carries : (w : World A P M) → CarriesId w (serve env deps r w)
  unfolding serve
  serve-Carries w = handle-Carries (route_of r.path) w

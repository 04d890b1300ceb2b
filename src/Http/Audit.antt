-- ===== src/Http/Audit.antt =====
-- What the routes of the role `admin` write to the audit log.
use modern_mcs.Prelude.{
  ℕ, String, ◌≡◌, refl, ap, not-eq→ne, subst, sym, ◌⊎◌, inl, inr, Bool, true, false, arith, List,
  [], ◌∷◌, Bool-cases, ◌==◌,
}
use modern_mcs.Auth.Types.{Session}
use modern_mcs.Http.Types.{Deps, World, Event, Request, Response, Environment}
use modern_mcs.Http.Guard.{audit_req}
use modern_mcs.Http.Sessions.{list_as, revoke_as, answer_revoke}
use modern_mcs.Http.Admin.{
  as_admin, profiles_as, answer_create, profile_as, profile_with, answer_update, answer_delete,
  migrations_as, status_as, apply_as, answer_apply,
}
use modern_mcs.Http.Routes.{
  Route, sessions, session, profiles, profile, migrations, migrations_status, migrations_apply,
  route_of, only, handle, serve,
}
use modern_mcs.Http.Access.{
  Admits, is_admin_route, require_session_cases, as_admin-admitted, as_admin-refused,
  IsDenialStatus,
}

-- The routes on which `GET` reads the SQL profiles.
abbrev pub reads_profiles : Route → String → Bool
reads_profiles profiles method = method == "GET"
reads_profiles profile method = method == "GET"
reads_profiles _ method = false

abbrev pub IsSuccess : ℕ → Type 0
IsSuccess status = (status ≡ 200) ⊎ (status ≡ 201) ⊎ (status ≡ 204)

-- A log with its latest event apart, which is a failure where there is none.
abbrev pub newest : List Event → Event
newest [] = record { actor = ""; action = ""; target = ""; outcome = ""; detail = "" }
newest (e ∷ es) = e

abbrev pub older : List Event → List Event
older [] = []
older (e ∷ es) = es

-- The second log is the first with one more event, a success of the actor.
abbrev pub IsLogged : String → List Event → List Event → Type 0
IsLogged actor before after =
    (e : Event) × (after ≡ e ∷ before) × (e.actor ≡ actor) × (e.outcome ≡ "success")

abbrev IsNewest : String → List Event → List Event → Type 0
IsNewest actor before after =
    (older after ≡ before) × ((newest after).actor ≡ actor) × ((newest after).outcome ≡ "success")

newest-IsLogged :
    (actor : String) (before after : List Event)
    → IsNewest actor before after
    → IsLogged actor before after
newest-IsLogged actor before [] (same, by, outcome) = absurd (not-eq→ne "" "success" refl outcome)
newest-IsLogged actor before (e ∷ es) (same, by, outcome) = (e, ap (λ l. e ∷ l) same, by, outcome)

module _ {B : Type 0} (env : Environment B) {A P M : Type 0} (deps : Deps A P M)
    (logs : deps.has_audit ≡ true) (r : Request B) (sess : Session) (w : World A P M) where
  -- A response of success comes with an event.
  abbrev Logs : Response × World A P M → Type 0
  Logs (resp, w') = IsSuccess resp.status → IsNewest sess.username w.audited w'.audited

  list_as-Logs : Logs (list_as env deps sess r w)
  unfolding list_as audit_req
  list_as-Logs h = ground arith

  revoke_as-Logs : Logs (revoke_as env deps sess r w)
  unfolding revoke_as answer_revoke audit_req
  revoke_as-Logs h = ground arith

  profiles_as-Logs : (r.method == "GET") ≡ false → Logs (profiles_as env deps sess r w)
  unfolding profiles_as answer_create audit_req
  profiles_as-Logs writes h = ground arith

  profile_as-Logs : (r.method == "GET") ≡ false → Logs (profile_as env deps sess r w)
  unfolding profile_as profile_with answer_update answer_delete audit_req
  profile_as-Logs writes h = ground arith

  migrations_as-Logs : Logs (migrations_as env deps sess r w)
  unfolding migrations_as audit_req
  migrations_as-Logs h = ground arith

  status_as-Logs : Logs (status_as env deps sess r w)
  unfolding status_as audit_req
  status_as-Logs h = ground arith

  apply_as-Logs : Logs (apply_as env deps sess r w)
  unfolding apply_as answer_apply audit_req
  apply_as-Logs h = ground arith

-- A denial is no success.
denial-fails : {status : ℕ} → IsDenialStatus status → IsSuccess status → ⊥
denial-fails denied success = ground arith

module _ {B : Type 0} (env : Environment B) {A P M : Type 0} (deps : Deps A P M)
    (logs : deps.has_audit ≡ true) (r : Request B) (w : World A P M) where
  -- A response of success comes with an event of the user of a session that is let in.
  abbrev IsAudited : Response × World A P M → Type 0
  IsAudited (resp, w') =
      IsSuccess resp.status
      → (sess : Session) × Admits env deps r "admin" w sess
        × IsLogged sess.username w.audited w'.audited

  as_admin-IsAudited :
      (handler : Session → Request B → World A P M → Response × World A P M)
      → ((sess : Session) (w' : World A P M)
          → IsSuccess (handler sess r w').0.status
          → IsNewest sess.username w'.audited (handler sess r w').1.audited)
      → IsAudited (as_admin env deps handler r w)
  as_admin-IsAudited handler logged = elim (require_session_cases env deps r "admin" w) [
    | inl (resp, w', refused, (denied, kept, kept', silent, checked)) ↦
        subst IsAudited (sym (as_admin-refused env deps r handler w w' resp refused))
          (λ success. absurd (denial-fails denied success))
    | inr (sess, w', admitted, goes_on, silent) ↦
        subst IsAudited (sym (as_admin-admitted env deps r handler w w' sess goes_on)) (λ success. (
          sess,
          admitted,
          subst (λ before. IsLogged sess.username before (handler sess r w').1.audited) silent
              (newest-IsLogged sess.username w'.audited (handler sess r w').1.audited
                (logged sess w' success)),
        ))
  ]

  only-IsAudited :
      (method : String) (handler : Request B → World A P M → Response × World A P M)
      → IsAudited (handler r w)
      → IsAudited (only env deps method handler r w)
  only-IsAudited method handler h = elim (Bool-cases (r.method == method)) [
    | inl same ↦ rw same h
    | inr differs ↦ rw differs (λ success. absurd (denial-fails (inr (inr (inl refl))) success))
  ]

  handle-IsAudited :
      (route : Route)
      → is_admin_route route ≡ true
      → reads_profiles route r.method ≡ false
      → IsAudited (handle env deps route r w)
  unfolding handle
  handle-IsAudited sessions h writes =
      only-IsAudited "GET" (as_admin env deps (list_as env deps))
        (as_admin-IsAudited (list_as env deps) (λ sess w'. list_as-Logs env deps logs r sess w'))
  handle-IsAudited session h writes =
      only-IsAudited "DELETE" (as_admin env deps (revoke_as env deps)) (
        as_admin-IsAudited (revoke_as env deps) (λ sess w'. revoke_as-Logs env deps logs r sess w'))
  handle-IsAudited profiles h writes =
      as_admin-IsAudited (profiles_as env deps)
        (λ sess w'. profiles_as-Logs env deps logs r sess w' writes)
  handle-IsAudited profile h writes =
      as_admin-IsAudited (profile_as env deps)
        (λ sess w'. profile_as-Logs env deps logs r sess w' writes)
  handle-IsAudited migrations h writes =
      as_admin-IsAudited (migrations_as env deps)
        (λ sess w'. migrations_as-Logs env deps logs r sess w')
  handle-IsAudited migrations_status h writes =
      only-IsAudited "GET" (as_admin env deps (status_as env deps)) (
        as_admin-IsAudited (status_as env deps) (λ sess w'. status_as-Logs env deps logs r sess w'))
  handle-IsAudited migrations_apply h writes =
      only-IsAudited "POST" (as_admin env deps (apply_as env deps))
        (as_admin-IsAudited (apply_as env deps) (λ sess w'. apply_as-Logs env deps logs r sess w'))
  handle-IsAudited _ h writes = let bad : ⊥ = ground (arith, h) in absurd bad

  -- Where there is an audit logger, a request on a session, profile or migration route that is
  -- answered with 200, 201 or 204, and is no `GET` of SQL profiles, has logged exactly one event:
  -- a success whose actor is the user of a session with the role `admin` that the request carries a
  -- token of.
  pub serve-IsAudited :
      is_admin_route (route_of r.path) ≡ true
      → reads_profiles (route_of r.path) r.method ≡ false
      → IsSuccess (serve env deps r w).0.status
      → (sess : Session) × Admits env deps r "admin" w sess
        × IsLogged sess.username w.audited (serve env deps r w).1.audited
  unfolding serve
  serve-IsAudited h writes = handle-IsAudited (route_of r.path) h writes

-- ===== src/Http/Answers.antt =====
-- What the handlers of internal/httpserver/server.go for a login, a logout and `/v1/auth/me` answer with
-- the auth service of internal/auth.
use modern_mcs.Prelude.{
  String, ◌≡◌, ◌≢◌, refl, true, arith, some, Result, ok, err, ◌==◌, eq_iff, ne→not-eq,
}
use modern_mcs.Auth.Types.{Session, Error}
use modern_mcs.Auth.State.{Platform, Randomness, generate_token}
use modern_mcs.Auth.Service.{login, validate_token, logout}
use modern_mcs.Auth.State as auth
use modern_mcs.Http.Types.{Credentials, Deps, World, Request, me, Environment}
use modern_mcs.Http.Guard.{
  extract_bearer_token, require_session, check_role, write_error, audit_req,
}
use modern_mcs.Http.Sessions.{
  handle_login, answer_login, login_body, user_payload, handle_me, handle_logout, answer_logout,
  session_or_zero,
}
use modern_mcs.Http.Wiring.{auth_service}

module _ {U T B C P M : Type 0} (p : Platform U T B) (env : Environment C)
    (deps : Deps (auth.Service U T B) P M) (over : deps.auth ≡ some (auth_service p)) where
  auth-audit_req :
      (r : Request C) (actor action target outcome session_id detail : String)
      (w : World (auth.Service U T B) P M)
      → (audit_req env deps r actor action target outcome session_id detail w).auth ≡ w.auth
  unfolding audit_req
  auth-audit_req r actor action target outcome session_id detail w = ground arith

  pub handle_login_ok :
      (r : Request C) (w : World (auth.Service U T B) P M) (c : Credentials)
      → r.method ≡ "POST"
      → env.decode_credentials r.body ≡ some c
      → c.username ≢ ""
      → c.password ≢ ""
      → (sess : Session) → (login p r.acts_at r.randomness c.username c.password w.auth).0 ≡ ok sess
      → ((handle_login env deps r w).0 ≡ record { status = 200; body = login_body env sess })
        × ((handle_login env deps r w).1.auth
            ≡ (login p r.acts_at r.randomness c.username c.password w.auth).1)
  unfolding handle_login answer_login audit_req
  handle_login_ok r w c post decoded named given sess entered =
      let post' : (r.method == "POST") ≡ true = (eq_iff r.method "POST").1 post in
      let named' = ne→not-eq c.username "" named in
      let given' = ne→not-eq c.password "" given in
      rw (post', handle_login)
        (rw over (
          rw decoded (
            rw (named', given')
              (rw entered (
                refl,
                auth-audit_req r sess.username "auth.login" "" "success" sess.id "" (record w {
                  auth = (login p r.acts_at r.randomness c.username c.password w.auth).1;
                }),
              )))))

  pub handle_me_cases :
      (r : Request C) (w : World (auth.Service U T B) P M) (token : String)
      → r.method ≡ "GET"
      → extract_bearer_token r.authorization ≡ some token
      → ((e : Error)
          → (validate_token p r.validated_at token w.auth).0 ≡ err e
          → (handle_me env deps r w).0 ≡ write_error 401 "invalid token")
        × ((sess : Session)
            → (validate_token p r.validated_at token w.auth).0 ≡ ok sess
            → (handle_me env deps r w).0
              ≡ record { status = 200; body = me (user_payload env sess) })
  unfolding handle_me require_session check_role
  handle_me_cases r w token get given =
      let get' : (r.method == "GET") ≡ true = (eq_iff r.method "GET").1 get in
      (
        λ e invalid. rw (get', handle_me) (rw over (rw given (rw invalid refl))),
        λ sess valid. rw (get', handle_me) (rw over (rw given (rw valid refl))),
      )

  auth-answer_logout :
      (sess : Session) (answer : Result Error (Unit {0})) (r : Request C)
      (w : World (auth.Service U T B) P M)
      → (answer_logout env deps sess answer r w).1.auth ≡ w.auth
  unfolding answer_logout
  auth-answer_logout sess (ok done) r w =
      auth-audit_req r sess.username "auth.logout" "" "success" sess.id "" w
  auth-answer_logout sess (err e) r w =
      auth-audit_req r sess.username "auth.logout" "" "failed" sess.id "invalid token" w

  pub handle_logout_auth :
      (r : Request C) (w : World (auth.Service U T B) P M) (token : String)
      → r.method ≡ "POST"
      → extract_bearer_token r.authorization ≡ some token
      → (handle_logout env deps r w).1.auth
        ≡ (logout p token (validate_token p r.validated_at token w.auth).1).1
  unfolding handle_logout answer_logout
  handle_logout_auth r w token post given =
      let post' : (r.method == "POST") ≡ true = (eq_iff r.method "POST").1 post in
      rw (post', handle_logout)
        (rw over (
          rw given (
            auth-answer_logout (session_or_zero (validate_token p r.validated_at token w.auth).0)
              (logout p token (validate_token p r.validated_at token w.auth).1).0 r
              (record w {
                auth = (logout p token (validate_token p r.validated_at token w.auth).1).1;
              }))))

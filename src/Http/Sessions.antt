-- ===== src/Http/Sessions.antt =====
-- `registerAuthHandlers` and `registerSessionAdminHandlers` of internal/httpserver/server.go.
use modern_mcs.Prelude.{String, not, ◌||◌, none, some, Result, ok, err, ◌==◌, if◌then◌else◌}
use modern_mcs.Text.{trim_space, trim_prefix, contains_char}
use modern_mcs.Auth.Types.{
  Session, no_session, Error, is_invalid_credentials, is_invalid_token, is_weak_password,
}
use modern_mcs.Http.Types.{
  AuthService, Deps, World, Request, UserPayload, Payload, logged_in, me, session_items, no_body,
  Response, Environment,
}
use modern_mcs.Http.Guard.{extract_bearer_token, write_error, audit_req, require_session}

-- The session that `ValidateToken` returns, which is the zero value where it fails.
abbrev pub session_or_zero : Result Error Session → Session
session_or_zero (ok session) = session
session_or_zero (err e) = no_session

abbrev pub no_content : Response
no_content = record { status = 204; body = no_body }

module _ {B : Type 0} (env : Environment B) where
  abbrev pub user_payload : Session → UserPayload
  user_payload session = record {
    id = session.user_id;
    username = session.username;
    roles = session.roles;
    expires_at = env.format session.expires_at;
  }

  abbrev pub login_body : Session → Payload
  login_body session = logged_in session.token session.id (user_payload session)

  module _ {A P M : Type 0} (deps : Deps A P M) where
    abbrev Handler : Type 0
    Handler = Request B → World A P M → Response × World A P M

    -- The end of the login handler, from the answer of `Login` on.
    unfoldable pub answer_login : String → Result Error Session → Handler
    unfolding audit_req
    answer_login username (ok session) r w = (
      record { status = 200; body = login_body session },
      audit_req env deps r session.username "auth.login" "" "success" session.id "" w,
    )
    answer_login username (err e) r w =
        if is_invalid_credentials e
        then (
          write_error 401 "invalid credentials",
          audit_req env deps r username "auth.login" "" "failed" "" "invalid credentials" w,
        )
        else (
          write_error 500 "login failed",
          audit_req env deps r username "auth.login" "" "failed" "" (env.auth_error e) w,
        )

    unfoldable pub handle_login : Handler
    unfolding answer_login
    handle_login r w =
        if not (r.method == "POST")
        then (write_error 405 "method not allowed", w)
        else elim deps.auth [
          | none ↦ (write_error 503 "auth service unavailable", w)
          | some svc ↦ elim (env.decode_credentials r.body) [
            | none ↦ (write_error 400 "invalid request body", w)
            | some req ↦
                if req.username == "" || req.password == ""
                then (write_error 400 "username and password are required", w)
                else (let (answer, a) =
                      svc.login r.acts_at r.randomness req.username req.password w.auth in
                    answer_login req.username answer r (record w { auth = a }))
          ]
        ]

    unfoldable pub handle_me : Handler
    unfolding require_session
    handle_me r w =
        if not (r.method == "GET")
        then (write_error 405 "method not allowed", w)
        else (let (guarded, w') = require_session env deps r "" w in
            elim guarded [
              | err response ↦ (response, w')
              | ok session ↦ (record { status = 200; body = me (user_payload session) }, w')
            ])

    -- The end of the logout handler, from the answer of `Logout` on.
    unfoldable pub answer_logout : Session → Result Error (Unit {0}) → Handler
    unfolding audit_req
    answer_logout session (err e) r w = (
      write_error 401 "invalid token",
      audit_req env deps r session.username "auth.logout" "" "failed" session.id "invalid token" w,
    )
    answer_logout session (ok done) r w = (
      no_content,
      audit_req env deps r session.username "auth.logout" "" "success" session.id "" w,
    )

    unfoldable pub handle_logout : Handler
    unfolding answer_logout extract_bearer_token
    handle_logout r w =
        if not (r.method == "POST")
        then (write_error 405 "method not allowed", w)
        else elim deps.auth [
          | none ↦ (write_error 503 "auth service unavailable", w)
          | some svc ↦ elim (extract_bearer_token r.authorization) [
            | none ↦ (write_error 401 "missing or invalid bearer token", w)
            | some token ↦
                let (validated, a) = svc.validate_token r.validated_at token w.auth in
                let (answer, a') = svc.logout token a in
                answer_logout (session_or_zero validated) answer r (record w { auth = a' })
          ]
        ]

    -- The end of the change-password handler, from the answer of `ChangePassword` on.
    unfoldable pub answer_change : Session → Result Error (Unit {0}) → Handler
    unfolding audit_req
    answer_change session (ok done) r w = (
      no_content,
      audit_req env deps r session.username "auth.change_password" "" "success" session.id "" w,
    )
    answer_change session (err e) r w =
        if is_weak_password e
        then (
          write_error 400 "new password does not meet policy",
          audit_req env deps r session.username "auth.change_password" "" "failed" session.id
              "weak password" w,
        )
        else if is_invalid_token e || is_invalid_credentials e
        then (
          write_error 401 "invalid credentials or token",
          audit_req env deps r session.username "auth.change_password" "" "failed" session.id
              "invalid credentials or token" w,
        )
        else (
          write_error 500 "change password failed",
          audit_req env deps r session.username "auth.change_password" "" "failed" session.id
              (env.auth_error e) w,
        )

    -- The change-password handler behind the check of the token, whose answer is not looked at.
    unfoldable pub change_with : AuthService A → String → Session → Handler
    unfolding answer_change
    change_with svc token session r w = elim (env.decode_password_change r.body) [
      | none ↦ (write_error 400 "invalid request body", w)
      | some req ↦
          if req.current_password == "" || req.new_password == ""
          then (write_error 400 "current_password and new_password are required", w)
          else (let (answer, a) =
                svc.change_password r.acts_at token req.current_password req.new_password w.auth in
              answer_change session answer r (record w { auth = a }))
    ]

    unfoldable pub handle_change_password : Handler
    unfolding change_with extract_bearer_token
    handle_change_password r w =
        if not (r.method == "POST")
        then (write_error 405 "method not allowed", w)
        else elim deps.auth [
          | none ↦ (write_error 503 "auth service unavailable", w)
          | some svc ↦ elim (extract_bearer_token r.authorization) [
            | none ↦ (write_error 401 "missing or invalid bearer token", w)
            | some token ↦
                let (validated, a) = svc.validate_token r.validated_at token w.auth in
                change_with svc token (session_or_zero validated) r (record w { auth = a })
          ]
        ]

    -- The handler of `/v1/system/sessions` behind `requireSession`.
    unfoldable pub list_as : Session → Handler
    unfolding audit_req
    list_as admin r w = elim deps.auth [
      | none ↦ (write_error 503 "auth service unavailable", w)
      | some svc ↦
          let (views, a) = svc.list_session_views r.acts_at w.auth in
          (
            record { status = 200; body = session_items views },
            audit_req env deps r admin.username "session.list" "" "success" admin.id ""
                (record w { auth = a }),
          )
    ]

    -- The end of the handler that revokes a session, from the answer of `RevokeSessionByID` on.
    unfoldable pub answer_revoke : Session → String → Result Error (Unit {0}) → Handler
    unfolding audit_req
    answer_revoke admin session_id (ok done) r w = (
      no_content,
      audit_req env deps r admin.username "session.revoke" session_id "success" admin.id "" w,
    )
    answer_revoke admin session_id (err e) r w =
        if is_invalid_token e
        then (
          write_error 404 "session not found",
          audit_req env deps r admin.username "session.revoke" session_id "failed" admin.id
              "session not found" w,
        )
        else (
          write_error 500 "revoke session failed",
          audit_req env deps r admin.username "session.revoke" session_id "failed" admin.id
              (env.auth_error e) w,
        )

    -- The handler of `/v1/system/sessions/` behind `requireSession`.
    unfoldable pub revoke_as : Session → Handler
    unfolding answer_revoke
    revoke_as admin r w = elim deps.auth [
      | none ↦ (write_error 503 "auth service unavailable", w)
      | some svc ↦
          let session_id = trim_space (trim_prefix r.path "/v1/system/sessions/") in
          if session_id == "" || contains_char session_id b'/'
          then (write_error 400 "invalid session id", w)
          else (let (answer, a) = svc.revoke_session_by_id session_id w.auth in
              answer_revoke admin session_id answer r (record w { auth = a }))
    ]

-- ===== src/Http/Protect.antt =====
-- What the routes change.
use modern_mcs.Prelude.{
  String, ◌≡◌, refl, ap, subst, sym, ◌∙◌, ◌≤◌, not-eq→ne, ◌⊎◌, inl, inr, true, false, arith, none,
  some, ok, Bool-cases,
}
use modern_mcs.Dict.{lookup}
use modern_mcs.Auth.Types.{Session}
use modern_mcs.Auth.State.{Platform}
use modern_mcs.Auth.State as auth
use modern_mcs.Auth.Service.Tokens.{validate_token_iff}
use modern_mcs.Http.Types.{Deps, World, Request, Environment}
use modern_mcs.Http.Guard.{extract_bearer_token, has_role, audit_req, require_session}
use modern_mcs.Http.Sessions.{
  handle_login, answer_login, handle_me, handle_logout, answer_logout, handle_change_password,
  change_with, answer_change,
}
use modern_mcs.Http.Routes.{
  Route, healthz, readyz, info, login, me, logout, change_password, other, route_of, handle, serve,
}
use modern_mcs.Http.Access.{Admits, is_admin_route, serve-admin}
use modern_mcs.Http.Wiring.{auth_service}

module _ {B : Type 0} (env : Environment B) {A P M : Type 0} (deps : Deps A P M)
    (r : Request B) where
  -- The SQL profiles and the state of the migrations are as they were.
  abbrev pub Keeps : World A P M → World A P M → Type 0
  Keeps w w' = (w'.profiles ≡ w.profiles) × (w'.migrations ≡ w.migrations)

  handle_login-Keeps : (w : World A P M) → Keeps w (handle_login env deps r w).1
  unfolding handle_login answer_login audit_req
  handle_login-Keeps w = ground arith

  handle_me-Keeps : (w : World A P M) → Keeps w (handle_me env deps r w).1
  unfolding handle_me require_session
  handle_me-Keeps w = ground arith

  handle_logout-Keeps : (w : World A P M) → Keeps w (handle_logout env deps r w).1
  unfolding handle_logout answer_logout audit_req
  handle_logout-Keeps w = ground arith

  handle_change_password-Keeps : (w : World A P M) → Keeps w (handle_change_password env deps r w).1
  unfolding handle_change_password change_with answer_change audit_req
  handle_change_password-Keeps w = ground arith

  handle-Keeps :
      (route : Route) (w : World A P M)
      → is_admin_route route ≡ false
      → Keeps w (handle env deps route r w).1
  unfolding handle
  handle-Keeps login w h = handle_login-Keeps w
  handle-Keeps me w h = handle_me-Keeps w
  handle-Keeps logout w h = handle_logout-Keeps w
  handle-Keeps change_password w h = handle_change_password-Keeps w
  handle-Keeps healthz w h = (refl, refl)
  handle-Keeps readyz w h = (refl, refl)
  handle-Keeps info w h = (refl, refl)
  handle-Keeps other w h = (refl, refl)
  handle-Keeps _ w h = let bad : ⊥ = ground (arith, h) in absurd bad

  -- Whatever the path and the method are, a request leaves the SQL profiles and the state of the
  -- migrations as they are, or it carries a bearer token whose session the auth service accepts and
  -- which has the role `admin`.
  pub serve-Keeps :
      (w : World A P M)
      → Keeps w (serve env deps r w).1 ⊎ ((sess : Session) × Admits env deps r "admin" w sess)
  unfolding serve
  serve-Keeps w = elim (Bool-cases (is_admin_route (route_of r.path))) [
    | inr open_to_all ↦ inl (handle-Keeps (route_of r.path) w open_to_all)
    | inl guarded ↦ elim (serve-admin env deps r w guarded) [
      | inl (status, kept, kept', silent, checked) ↦ inl (kept, kept')
      | inr admitted ↦ inr admitted
    ]
  ]

some_inj : {X : Type 0} {x y : X} → some x ≡ some y → x ≡ y
some_inj {x = x} h = ap (λ o. elim o [ none ↦ x | some z ↦ z ]) h

-- With the auth service of internal/auth, a request that changes an SQL profile or the state of the
-- migrations carries a token that has a session, the session has not expired when the token is
-- checked, and one of its roles is `admin`.
pub serve-session :
    {U T B C P M : Type 0} (p : Platform U T B) (env : Environment C)
    (deps : Deps (auth.Service U T B) P M)
    → deps.auth ≡ some (auth_service p)
    → (r : Request C) (w : World (auth.Service U T B) P M)
    → Keeps env deps r w (serve env deps r w).1
      ⊎ ((token : String) × (sess : Session) × (extract_bearer_token r.authorization ≡ some token)
          × (lookup token w.auth.sessions ≡ some sess)
          × (r.validated_at ≤ sess.expires_at)
          × (has_role sess.roles "admin" ≡ true))
serve-session p env deps over r w = elim (serve-Keeps env deps r w) [
  | inl kept ↦ inl kept
  | inr (sess, (svc, token, present, given, valid, has)) ↦
      let same : svc ≡ auth_service p = some_inj (sym present ∙ over) in
      let (found, live) =
        (validate_token_iff p w.auth r.validated_at token sess).0
          (subst (λ v. (v.validate_token r.validated_at token w.auth).0 ≡ ok sess) same valid) in
      inr (
        token,
        sess,
        given,
        found,
        live,
        elim has [ inl e ↦ absurd (not-eq→ne "admin" "" refl e) | inr role ↦ role ],
      )
]

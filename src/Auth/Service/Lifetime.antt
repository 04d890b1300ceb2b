-- ===== src/Auth/Service/Lifetime.antt =====
-- A session from its login to its end.
use modern_mcs.Prelude.{
  ℕ, ◌+◌, ◌≤◌, String, ◌≡◌, ◌∙◌, ◌↔◌, ◌<◌, true, refl, ltb, lt→ltb, some, ok, err, eq_refl,
}
use modern_mcs.Dict.{lookup}
use modern_mcs.Auth.Types.{Session, invalid_token}
use modern_mcs.Auth.State.{Platform, Service, Randomness, is_expired}
use modern_mcs.Auth.Service.{login, validate_token, logout}
use modern_mcs.Auth.Service.Login.{login-IsLogin}
use modern_mcs.Auth.Service.Tokens.{validate_token_iff, logout_lem}

module _ {U T B : Type 0} (p : Platform U T B) (now : ℕ) (random : Randomness)
    (username password : String) (s : Service U T B) (sess : Session)
    (entered : (login p now random username password s).0 ≡ ok sess) where
  abbrev entered_service : Service U T B
  entered_service = (login p now random username password s).1

  lookup-login : lookup sess.token entered_service.sessions ≡ some sess
  lookup-login =
      (login-IsLogin p now random username password s sess entered).1 sess.token ∙ rw eq_refl

  expires-login : sess.expires_at ≡ now + s.ttl
  expires-login = (login-IsLogin p now random username password s sess entered).0.expires_at

  -- After a login that succeeds, the token of its session is accepted up to the time to live, and no longer.
  pub validate_token-login :
      (later : ℕ)
      → ((validate_token p later sess.token entered_service).0 ≡ ok sess) ↔ (later ≤ now + s.ttl)
  validate_token-login later =
      let (to, from) = validate_token_iff p entered_service later sess.token sess in
      (λ h. rw expires-login at (to h).1, λ h. from (lookup-login, rw expires-login h))

  pub validate_token-login_late :
      (later : ℕ)
      → now + s.ttl < later
      → (validate_token p later sess.token entered_service).0 ≡ err invalid_token
  unfolding validate_token is_expired
  validate_token-login_late later h =
      let expired : ltb sess.expires_at later ≡ true = lt→ltb _ _ (rw expires-login h) in
      rw (lookup-login, validate_token) (rw expired refl)

  -- After a login and a logout of its token, the token is refused at any time, also where the logout could not write.
  pub validate_token-logout :
      (later : ℕ)
      → validate_token p later sess.token (logout p sess.token entered_service).1
        ≡ (err invalid_token, (logout p sess.token entered_service).1)
  unfolding validate_token
  validate_token-logout later = rw (logout_lem, validate_token) (rw eq_refl)

-- ===== src/Auth/Service/Tokens.antt =====
-- What `ValidateToken`, `Logout`, `RevokeToken` and `RevokeSessionByID` do to each token.
use modern_mcs.Prelude.{
  ℕ, ◌≤◌, String, ◌≡◌, ◌↔◌, arith, none, some, ok, err, ◌==◌, eq_iff, if◌then◌else◌,
}
use modern_mcs.Dict.{lookup, erase}
use modern_mcs.Dict.Laws.{lookup-erase}
use modern_mcs.Auth.Types.{Session, Error, invalid_token}
use modern_mcs.Auth.State.{Platform, Service, is_expired}
use modern_mcs.Auth.Service.{drop_token, validate_token, delete_token, logout, revoke_token}
use modern_mcs.Auth.Service.Frame.{persist-SameCore}

module _ {U T B : Type 0} (p : Platform U T B) (s : Service U T B) where
  pub sessions-delete_token :
      (token : String) → (delete_token p token s).1.sessions ≡ erase token s.sessions
  unfolding delete_token
  sessions-delete_token token =
      (persist-SameCore p (record s { sessions = erase token s.sessions })).sessions

  pub sessions-drop_token :
      (token : String) → (drop_token p token s).sessions ≡ erase token s.sessions
  unfolding drop_token
  sessions-drop_token token =
      (persist-SameCore p (record s { sessions = erase token s.sessions })).sessions

  -- A token is accepted exactly when it has a session that has not expired, and that session is
  -- returned.
  pub validate_token_iff :
      (now : ℕ) (token : String) (sess : Session)
      → ((validate_token p now token s).0 ≡ ok sess)
        ↔ ((lookup token s.sessions ≡ some sess) × (now ≤ sess.expires_at))
  unfolding validate_token is_expired
  validate_token_iff now token sess = (λ h. ground arith, λ h. ground arith)

  -- All other tokens are refused with `ErrInvalidToken`.
  pub validate_token_error :
      (now : ℕ) (token : String) (e : Error)
      → (validate_token p now token s).0 ≡ err e
      → e ≡ invalid_token
  unfolding validate_token
  validate_token_error now token e h = ground arith

  -- Validation takes the token away if its session has expired, and changes no other token.
  pub lookup-validate_token :
      (now : ℕ) (token t : String)
      → lookup t (validate_token p now token s).1.sessions ≡ (
          if token == t
          then elim (lookup t s.sessions) [
            | none ↦ none
            | some sess ↦ if is_expired now sess then none else some sess
          ]
          else lookup t s.sessions)
  unfolding validate_token is_expired
  lookup-validate_token now token t =
      ground (arith, sessions-drop_token token, lookup-erase token t s.sessions, eq_iff token t)

  -- `Logout` succeeds or fails in the write only for a token that is in use; whatever its result,
  -- the token has no session afterwards, and no other token changes.
  pub logout_lem :
      (token t : String)
      → lookup t (logout p token s).1.sessions ≡ (if token == t then none else lookup t s.sessions)
  unfolding logout
  logout_lem token t =
      ground (arith, sessions-delete_token token, lookup-erase token t s.sessions, eq_iff token t)

  pub logout_unknown :
      (token : String) → lookup token s.sessions ≡ none → logout p token s ≡ (err invalid_token, s)
  unfolding logout
  logout_unknown token h = rw (h, logout)

  pub revoke_token_lem :
      (token t : String)
      → lookup t (revoke_token p token s).1.sessions
        ≡ (if token == t then none else lookup t s.sessions)
  unfolding revoke_token
  revoke_token_lem token t =
      ground (arith, sessions-delete_token token, lookup-erase token t s.sessions, eq_iff token t)

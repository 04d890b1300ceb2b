-- ===== src/Auth/Service/Origin.antt =====
-- Where sessions come from: over any history, a token that is in use was issued by a login.
use modern_mcs.Prelude.{
  ℕ, String, ◌≡◌, ◌⊎◌, inl, inr, arith, List, [], ◌∷◌, some, ok, Result-cases, eq_iff,
}
use modern_mcs.Dict.{Dict, lookup, insert, erase}
use modern_mcs.Dict.Laws.{lookup-insert, lookup-erase}
use modern_mcs.Auth.Types.{Session}
use modern_mcs.Auth.State.{Platform, Service, Randomness}
use modern_mcs.Auth.Service.{login, new_session}
use modern_mcs.Auth.Service.Login.{login_cases, login-IsLogin, open_session_err}
use modern_mcs.Auth.Service.Run.{
  Call, logs_in, validates, logs_out, revokes, revokes_id, lists, changes_password, step, run,
  IsSessionMap, LosesOne, validate_token-loses, logout-loses, revoke_token-loses,
  revoke_session_by_id-loses, change_password-loses, step-IsSessionMap, IsFair,
}
use modern_mcs.Prelude.{All}
use modern_mcs.Auth.Service.Listing.{lookup-list_sessions}

module _ {U T B : Type 0} (p : Platform U T B) (t : String) (sess : Session) where
  -- The call is a login that returns the session with the token.
  abbrev pub Issues : Service U T B → Call → Type 0
  Issues s (logs_in now random username password) =
      ((login p now random username password s).0 ≡ ok sess) × (sess.token ≡ t)
  Issues s _ = ⊥

  -- Some call of the history does.
  abbrev pub IssuedIn : Service U T B → List Call → Type 0
  IssuedIn s [] = ⊥
  IssuedIn s (c ∷ cs) = Issues s c ⊎ IssuedIn (step p s c) cs

  lookup-loses :
      {d d' : Dict Session} → LosesOne d d' → lookup t d' ≡ some sess → lookup t d ≡ some sess
  lookup-loses (inl e) h = rw e at h
  lookup-loses {d} (inr (k, e)) h = let h' = rw e at h in ground (arith, lookup-erase k t d)

  login-Issues :
      (now : ℕ) (random : Randomness) (username password : String) (s : Service U T B)
      → lookup t (login p now random username password s).1.sessions ≡ some sess
      → (lookup t s.sessions ≡ some sess)
        ⊎ (((login p now random username password s).0 ≡ ok sess) × (sess.token ≡ t))
  login-Issues now random username password s h =
      elim (Result-cases (login p now random username password s).0) [
        | inl (got, entered) ↦
            let after = (login-IsLogin p now random username password s got entered).1 t in
            ground (arith, after, entered, eq_iff got.token t)
        | inr (e, failed) ↦ elim (login_cases p now random username password s) [
          | inl (e', refused) ↦ inl (rw refused at h)
          | inr (u, known, verified, token, made, opens) ↦
              let new = new_session p now random token u s in
              let undone = open_session_err p new s e (rw opens at failed) in
              let h' : lookup t (erase new.token (insert new.token new s.sessions)) ≡ some sess =
                rw (opens, undone) at h in
              inl (
                ground (
                  arith,
                  h',
                  lookup-erase new.token t (insert new.token new s.sessions),
                  lookup-insert new.token t new s.sessions,
                ))
        ]
      ]

  step-Issues :
      (s : Service U T B) (c : Call)
      → IsSessionMap s.sessions
      → lookup t (step p s c).sessions ≡ some sess
      → (lookup t s.sessions ≡ some sess) ⊎ Issues s c
  unfolding step
  step-Issues s (logs_in now random username password) m h =
      login-Issues now random username password s h
  step-Issues s (validates now token) m h =
      inl (lookup-loses (validate_token-loses p s now token) h)
  step-Issues s (logs_out token) m h = inl (lookup-loses (logout-loses p s token) h)
  step-Issues s (revokes token) m h = inl (lookup-loses (revoke_token-loses p s token) h)
  step-Issues s (revokes_id id) m h = inl (lookup-loses (revoke_session_by_id-loses p s id) h)
  step-Issues s (lists now) m h = inl (ground (arith, lookup-list_sessions p s m.distinct now t))
  step-Issues s (changes_password now token current new) m h =
      inl (lookup-loses (change_password-loses p s now token current new) h)

  -- After any history of calls from a map of sessions, the session of a token was there before, or was returned with that token by
  -- a login of the history that succeeded.
  pub run-IssuedIn :
      (s : Service U T B) (cs : List Call)
      → IsSessionMap s.sessions
      → All IsFair cs
      → lookup t (run p s cs).sessions ≡ some sess
      → (lookup t s.sessions ≡ some sess) ⊎ IssuedIn s cs
  unfolding run
  run-IssuedIn s [] m fair h = inl h
  run-IssuedIn s (c ∷ cs) m (f, fair) h =
      elim (run-IssuedIn (step p s c) cs (step-IsSessionMap p s m c f) fair h) [
        | inr later ↦ inr (inr later)
        | inl before ↦ elim (step-Issues s c m before) [
          | inl old ↦ inl old
          | inr now ↦ inr (inl now)
        ]
      ]

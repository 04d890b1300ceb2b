-- ===== src/Auth/Service/Login.antt =====
-- What `Login` establishes, where it succeeds and where it fails.
use modern_mcs.Prelude.{
  ℕ, ◌+◌, String, ◌≡◌, ap, true, false, arith, none, some, ok, err, ◌==◌, eq_iff, Result-cases,
  Bool-cases, ◌⊎◌, inl, inr, if◌then◌else◌,
}
use modern_mcs.Dict.{lookup, insert, erase}
use modern_mcs.Dict.Laws.{lookup-insert, lookup-erase}
use modern_mcs.Auth.Types.{User, Session, Error, invalid_credentials, wrap}
use modern_mcs.Auth.State.{Platform, Service, Randomness, generate_token, must_id}
use modern_mcs.Auth.Service.{verify_password, open_session, new_session, login}
use modern_mcs.Auth.Service.Frame.{persist-SameCore}

module _ {U T B : Type 0} (p : Platform U T B) where
  module _ (sess : Session) (s : Service U T B) where
    pub open_session_ok :
        (got : Session)
        → (open_session p sess s).0 ≡ ok got
        → (got ≡ sess) × ((open_session p sess s).1.sessions ≡ insert sess.token sess s.sessions)
    unfolding open_session
    open_session_ok got h =
        ground
          (arith, persist-SameCore p (record s { sessions = insert sess.token sess s.sessions }))

    pub open_session_err :
        (e : Error)
        → (open_session p sess s).0 ≡ err e
        → (open_session p sess s).1.sessions ≡ erase sess.token (insert sess.token sess s.sessions)
    unfolding open_session
    open_session_err e h =
        ground
          (arith, persist-SameCore p (record s { sessions = insert sess.token sess s.sessions }))

  -- What a session that `login` returns is made of.
  pub record IsLogin (now : ℕ) (random : Randomness) (name password : String) (s : Service U T B)
      (sess : Session) : Type 0 where
    pub user : User
    pub known : p.users.get_by_username s.users name ≡ ok user
    pub verified : verify_password p s.pepper password user.password_hash ≡ true
    pub token : generate_token 32 random.for_token ≡ ok sess.token
    pub id : sess.id ≡ must_id 16 random.for_id random.unix_nano
    pub user_id : sess.user_id ≡ user.id
    pub username : sess.username ≡ user.username
    pub roles : sess.roles ≡ user.roles
    pub created_at : sess.created_at ≡ now
    pub expires_at : sess.expires_at ≡ now + s.ttl

  module _ (now : ℕ) (random : Randomness) (username password : String) (s : Service U T B) where
    pub login_opens :
        (u : User) (token : String)
        → p.users.get_by_username s.users username ≡ ok u
        → verify_password p s.pepper password u.password_hash ≡ true
        → generate_token 32 random.for_token ≡ ok token
        → login p now random username password s
          ≡ open_session p (new_session p now random token u s) s
    unfolding login
    login_opens u token known verified made = rw (known, login) (rw verified (rw (made, login)))

    pub login_unknown :
        (e : Error)
        → p.users.get_by_username s.users username ≡ err e
        → login p now random username password s ≡ (err invalid_credentials, s)
    unfolding login
    login_unknown e unknown = rw (unknown, login)

    pub login_refused :
        (u : User)
        → p.users.get_by_username s.users username ≡ ok u
        → verify_password p s.pepper password u.password_hash ≡ false
        → login p now random username password s ≡ (err invalid_credentials, s)
    unfolding login
    login_refused u known wrong = rw (known, login) (rw wrong)

    -- `login` refuses and leaves the service as it is, or opens a session.
    pub login_cases :
        ((e : Error) × (login p now random username password s ≡ (err e, s)))
        ⊎ ((u : User) × (p.users.get_by_username s.users username ≡ ok u)
            × (verify_password p s.pepper password u.password_hash ≡ true)
            × (token : String) × (generate_token 32 random.for_token ≡ ok token)
            × (login p now random username password s
                ≡ open_session p (new_session p now random token u s) s))
    unfolding login
    login_cases = elim (Result-cases (p.users.get_by_username s.users username)) [
      | inr (e, unknown) ↦ inl (invalid_credentials, login_unknown e unknown)
      | inl (u, known) ↦ elim (Bool-cases (verify_password p s.pepper password u.password_hash)) [
        | inr wrong ↦ inl (invalid_credentials, login_refused u known wrong)
        | inl verified ↦ elim (Result-cases (generate_token 32 random.for_token)) [
          | inr (e, failed) ↦
              inl (wrap "generate token" e, rw (known, login) (rw verified (rw (failed, login))))
          | inl (token, made) ↦
              inr (u, known, verified, token, made, login_opens u token known verified made)
        ]
      ]
    ]

    -- A login that succeeds has verified the password of the named user, and returns a session with
    -- the id, the name and the roles of that user, with the token that the random source gave and the
    -- id that `mustID` made, created now, and expiring after the time to live; afterwards its token
    -- has that session, and every other token has the session that it had.
    pub login-IsLogin :
        (sess : Session)
        → (login p now random username password s).0 ≡ ok sess
        → IsLogin now random username password s sess
          × ((t : String)
              → lookup t (login p now random username password s).1.sessions
                ≡ (if sess.token == t then some sess else lookup t s.sessions))
    unfolding new_session
    login-IsLogin sess h = elim login_cases [
      | inl (e, refused) ↦ cc
      | inr (u, known, verified, token, made, opens) ↦
          let (same, after) =
            open_session_ok (new_session p now random token u s) s sess (rw opens at h) in
          let same_token : sess.token ≡ token = ap (λ (x : Session). x.token) same in
          (
            record {
              user = u;
              known = known;
              verified = verified;
              token = rw same_token made;
              id = ap (λ (x : Session). x.id) same;
              user_id = ap (λ (x : Session). x.user_id) same;
              username = ap (λ (x : Session). x.username) same;
              roles = ap (λ (x : Session). x.roles) same;
              created_at = ap (λ (x : Session). x.created_at) same;
              expires_at = ap (λ (x : Session). x.expires_at) same;
            },
            λ t. rw opens (rw (after, lookup-insert, same)),
          )
    ]

    -- A login that fails leaves every token with the session that it had, provided that the token
    -- which the random source gave was not in use.
    login_failed :
        (e : Error)
        → ((token : String)
            → generate_token 32 random.for_token ≡ ok token
            → lookup token s.sessions ≡ none)
        → (login p now random username password s).0 ≡ err e
        → (t : String)
        → lookup t (login p now random username password s).1.sessions ≡ lookup t s.sessions
    unfolding new_session
    login_failed e fresh h t = elim login_cases [
      | inl (e', refused) ↦ rw refused
      | inr (u, known, verified, token, made, opens) ↦
          let after = open_session_err (new_session p now random token u s) s e (rw opens at h) in
          rw opens (
            rw (after, lookup-erase, lookup-insert)
              (ground (arith, fresh token made, eq_iff token t)))
    ]

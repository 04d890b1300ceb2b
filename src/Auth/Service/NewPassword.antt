-- ===== src/Auth/Service/NewPassword.antt =====
-- A changed password works for the next login, and the old one does not.
use modern_mcs.Prelude.{
  ℕ, String, ◌≡◌, ap, sym, ◌∙◌, ◌≢◌, true, ok, err, ◌==◌, eq_iff, eq_refl, ne→not-eq,
}
use modern_mcs.Auth.Types.{User, Session, invalid_credentials}
use modern_mcs.Auth.Users.Laws.{IsUserStore}
use modern_mcs.Auth.State.{Platform, Service, Randomness, generate_token}
use modern_mcs.Auth.Service.{
  validate_token, change_password, verify_password, hash_password, login, open_session, new_session,
}
use modern_mcs.Auth.Service.Login.{login_opens, login_refused}
use modern_mcs.Auth.Service.Password.{IsChange, change_password_ok}

module _ {U T B : Type 0} (p : Platform U T B) {canon : String → String} {Valid : U → Type 0}
    (laws : IsUserStore p.users canon Valid) (now : ℕ) (token current new : String)
    (s : Service U T B) (valid : Valid s.users)
    (changed : (change_password p now token current new s).0 ≡ ok tt) (session : Session)
    (in_force : (validate_token p now token s).0 ≡ ok session) (user : User)
    (known : p.users.get_by_username s.users session.username ≡ ok user) where
  abbrev after : Service U T B
  after = (change_password p now token current new s).1

  abbrev updated : User
  updated = record user { password_hash = hash_password p s.pepper new }

  change : IsChange p now token current new s
  change = change_password_ok p now token current new s changed

  same_session : change.session ≡ session
  same_session = cc (change.valid)

  same_user : change.user ≡ user
  same_user = cc (same_session, change.known)

  stored : (p.users.put s.users updated).0 ≡ ok tt
  stored = rw same_user at change.stored

  users-after : after.users ≡ (p.users.put s.users updated).1
  users-after =
      ap (λ x. x.1.users) change.result
      ∙ ap
          (λ (u : User).
            (p.users.put s.users (record u { password_hash = hash_password p s.pepper new })).1)
          same_user

  pepper-after : after.pepper ≡ s.pepper
  pepper-after = ap (λ x. x.1.pepper) change.result

  known_after : p.users.get_by_username after.users session.username ≡ ok updated
  known_after =
      let own : user.username ≡ canon session.username =
        laws.username-get s.users session.username user valid known in
      let again : canon user.username ≡ user.username =
        ap canon own ∙ laws.canon_idem session.username ∙ sym own in
      let same : canon user.username == canon session.username ≡ true =
        (eq_iff _ _).1 (again ∙ own) in
      let named : record updated { username = canon user.username } ≡ updated =
        ap (λ (name : String). record updated { username = name }) again in
      rw users-after
        (laws.get-put s.users updated session.username valid stored ∙ rw same (ap ok named))

  -- After a change that succeeds, over a user store that keeps its promise, the session's user can log in with the new password: the login
  -- goes as far as opening a session, as soon as a token can be made.
  pub login_new_password :
      (later : ℕ) (random : Randomness) (fresh : String)
      → generate_token 32 random.for_token ≡ ok fresh
      → login p later random session.username new after
        ≡ open_session p (new_session p later random fresh updated after) after
  unfolding verify_password
  login_new_password later random fresh made =
      login_opens p later random session.username new after updated fresh known_after
        (rw pepper-after (eq_refl _)) made

  -- After a change that succeeds, over a user store that keeps its promise, a login of the session's
  -- user with the old password is refused as invalid credentials, unless the two passwords have one
  -- hash.
  pub login_old_password :
      (later : ℕ) (random : Randomness)
      → hash_password p s.pepper current ≢ hash_password p s.pepper new
      → login p later random session.username current after ≡ (err invalid_credentials, after)
  unfolding verify_password
  login_old_password later random differ =
      login_refused p later random session.username current after updated known_after
        (rw pepper-after (ne→not-eq _ _ differ))

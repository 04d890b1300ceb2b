-- ===== src/Auth/Bootstrap.antt =====
-- The first user, which `New` of internal/app/app.go puts into a user store that does not have it.
use modern_mcs.Prelude.{
  ℕ, ◌+◌, String, ◌≡◌, refl, ap, ◌∙◌, inl, inr, Result-cases, [], ◌∷◌, ok, err, eq_refl,
  if◌then◌else◌,
}
use modern_mcs.Auth.Types.{User, is_user_not_found, user_not_found, wrap, Outcome}
use modern_mcs.Auth.Users.Laws.{IsUserStore}
use modern_mcs.Auth.State.{Platform, Service, Randomness, generate_token, must_id}
use modern_mcs.Auth.Service.{hash_password, verify_password, login, open_session, new_session}
use modern_mcs.Auth.Service.Login.{login_opens}

module _ {U T B : Type 0} (p : Platform U T B) (username password : String) where
  unfoldable pub bootstrap_user : Service U T B → User
  bootstrap_user s = record {
    id = "bootstrap-admin";
    username = username;
    password_hash = hash_password p s.pepper password;
    roles = "admin" ∷ [];
  }

  -- The block of `New` from `GetByUsername` on; the user store of `New` is that of the service.
  unfoldable pub ensure_bootstrap_user : Service U T B → Outcome (Service U T B) (Unit {0})
  unfolding bootstrap_user
  ensure_bootstrap_user s = elim (p.users.get_by_username s.users username) [
    | ok u ↦ (ok tt, s)
    | err e ↦
        if is_user_not_found e
        then (let (r, users) = p.users.put s.users (bootstrap_user s) in
            (
              elim r [ ok _ ↦ ok tt | err e' ↦ err (wrap "create bootstrap user" e') ],
              record s { users = users },
            ))
        else (err (wrap "check bootstrap user" e), s)
  ]

  abbrev pub put_user : (s : Service U T B) → Outcome U (Unit {0})
  put_user s = p.users.put s.users (bootstrap_user s)

  pub put_user_ok :
      (s : Service U T B)
      → p.users.get_by_username s.users username ≡ err user_not_found
      → (ensure_bootstrap_user s).0 ≡ ok tt
      → ((put_user s).0 ≡ ok tt)
        × ((ensure_bootstrap_user s).1 ≡ record s { users = (put_user s).1 })
  unfolding ensure_bootstrap_user is_user_not_found
  put_user_ok s absent h = elim (Result-cases (p.users.put s.users (bootstrap_user s)).0) [
    | inl (_, good) ↦ (good, rw (absent, ensure_bootstrap_user) refl)
    | inr (e, failed) ↦ let bad = rw (absent, ensure_bootstrap_user, failed) at h in cc
  ]

  -- A user that is there stays as it is.
  ensure_bootstrap_user_known :
      (s : Service U T B) (u : User)
      → p.users.get_by_username s.users username ≡ ok u
      → ensure_bootstrap_user s ≡ (ok tt, s)
  unfolding ensure_bootstrap_user
  ensure_bootstrap_user_known s u known = rw (known, ensure_bootstrap_user) refl

  -- Over a user store that keeps its promise and does not have the user of the configuration: if the
  -- user was put there without an error, doing it again changes nothing, and a login with the
  -- configured name and password, as soon as a token can be made, goes as far as opening a session
  -- of the user `bootstrap-admin`, under the name that the store makes of the configured one, with
  -- the role `admin` and no other, from now until the time to live has passed.
  pub login-ensure_bootstrap_user :
      {canon : String → String} {Valid : U → Type 0} (laws : IsUserStore p.users canon Valid)
      (s : Service U T B)
      → Valid s.users
      → p.users.get_by_username s.users username ≡ err user_not_found
      → (ensure_bootstrap_user s).0 ≡ ok tt
      → (now : ℕ) (random : Randomness) (token : String)
      → generate_token 32 random.for_token ≡ ok token
      → (ensure_bootstrap_user (ensure_bootstrap_user s).1 ≡ (ok tt, (ensure_bootstrap_user s).1))
        × (login p now random username password (ensure_bootstrap_user s).1
            ≡ open_session p
                (record {
                  id = must_id 16 random.for_id random.unix_nano;
                  token = token;
                  user_id = "bootstrap-admin";
                  username = canon username;
                  roles = "admin" ∷ [];
                  created_at = now;
                  expires_at = now + s.ttl;
                })
                (ensure_bootstrap_user s).1)
  unfolding verify_password bootstrap_user new_session
  login-ensure_bootstrap_user {canon = canon} laws s valid absent h now random token made =
      let (good, left) = put_user_ok s absent h in
      let stored : User = record (bootstrap_user s) { username = canon username } in
      let pepper : (ensure_bootstrap_user s).1.pepper ≡ s.pepper = ap (λ x. x.pepper) left in
      let ttl : (ensure_bootstrap_user s).1.ttl ≡ s.ttl = ap (λ x. x.ttl) left in
      let known : p.users.get_by_username (ensure_bootstrap_user s).1.users username ≡ ok stored =
        rw left (laws.get-put s.users (bootstrap_user s) username valid good ∙ rw eq_refl) in
      (
        ensure_bootstrap_user_known (ensure_bootstrap_user s).1 stored known,
        login_opens p now random username password (ensure_bootstrap_user s).1 stored token known
              (rw pepper (eq_refl _)) made
            ∙ rw ttl refl,
      )

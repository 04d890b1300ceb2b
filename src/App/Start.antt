-- ===== src/App/Start.antt =====
-- The auth service that `New` puts together, and a second start over what its user store had.
use modern_mcs.Prelude.{
  ℕ, String, ◌≡◌, refl, ap, sym, ◌∙◌, inl, inr, arith, [], ◌∷◌, Option, some, Result, ok, err,
  Result-cases, eq_refl,
}
use modern_mcs.Disk.{Disk}
use modern_mcs.Config.Defs.{Config}
use modern_mcs.Auth.Types.{User, user_not_found}
use modern_mcs.Auth.Users.Laws.{IsUserStore}
use modern_mcs.Auth.State.{Platform, Service, Randomness, new_service, generate_token}
use modern_mcs.Auth.Persistence.{load_session_state, read_sessions}
use modern_mcs.Auth.Service.{login, hash_password, verify_password, open_session, new_session}
use modern_mcs.Auth.Service.Login.{login_opens}
use modern_mcs.Auth.Bootstrap.{bootstrap_user, ensure_bootstrap_user, put_user, put_user_ok}
use modern_mcs.App.{StartError, in_auth, then_with, service_config, start_auth}

-- Two steps that only may fail, of which the second one has a state.
last_step :
    {E S : Type 0} (wrap : E → StartError) (wrap' : E → StartError) (r : Result E (Unit {0}))
    (q : Result E (Unit {0}) × S) (s : S)
    → then_with wrap' r (λ done. then_with wrap q.0 (λ done'. ok q.1)) ≡ ok s
    → q ≡ (ok tt, s)
last_step wrap wrap' (ok u) (ok u', x) s h = ap (λ y. (ok tt, y)) (ground arith)
last_step wrap wrap' (ok u) (err e, x) s h = let bad : ⊥ = ground arith in absurd bad
last_step wrap wrap' (err e) q s h = let bad : ⊥ = ground arith in absurd bad

module _ {U T B : Type 0} (p : Platform U T B) where
  load_session_state_frame :
      (s : Service U T B)
      → ((load_session_state p s).1.users ≡ s.users)
        × ((load_session_state p s).1.pepper ≡ s.pepper)
  unfolding load_session_state read_sessions
  load_session_state_frame s = (ground arith, ground arith)

  new_service_frame :
      (users : U) (cfg : Config) (store : Option T) (disk : Disk B) (s : Service U T B)
      → new_service (some users) (service_config cfg store) disk ≡ ok s
      → (s.users ≡ users) × (s.pepper ≡ cfg.auth.password_pepper)
  unfolding new_service service_config
  new_service_frame users cfg store disk s h = (ground arith, ground arith)

  -- A start that succeeds ends with the block of the first user, over the store that was opened.
  pub start_auth_ok :
      (cfg : Config) (users : U) (store : Option T) (disk : Disk B) (s : Service U T B)
      → start_auth p cfg users store disk ≡ ok s
      → (s1 : Service U T B) × (s1.users ≡ users)
        × (s1.pepper ≡ cfg.auth.password_pepper)
        × (ensure_bootstrap_user p cfg.auth.bootstrap_username cfg.auth.bootstrap_password s1
            ≡ (ok tt, s))
  unfolding start_auth
  start_auth_ok cfg users store disk s h =
      elim (Result-cases (new_service (some users) (service_config cfg store) disk)) [
        | inr (e, bad) ↦ let no = rw (bad, start_auth) at h in cc
        | inl (s0, made) ↦
            let s1 = (load_session_state p s0).1 in
            let (users_left, pepper_left) = load_session_state_frame s0 in
            let (users_made, pepper_made) = new_service_frame users cfg store disk s0 made in
            let h0 = rw (made, start_auth) at h in
            (
              s1,
              users_left ∙ users_made,
              pepper_left ∙ pepper_made,
              last_step in_auth _ (load_session_state p s0).0
                  (ensure_bootstrap_user p cfg.auth.bootstrap_username cfg.auth.bootstrap_password
                    s1)
                  s h0,
            )
      ]

  module _ {canon : String → String} {Valid : U → Type 0} (laws : IsUserStore p.users canon Valid)
      (cfg : Config) where
    abbrev name : String
    name = cfg.auth.bootstrap_username

    abbrev password : String
    password = cfg.auth.bootstrap_password

    -- The user that a start puts there, as the store keeps it.
    abbrev pub first_user : User
    first_user = record {
      id = "bootstrap-admin";
      username = canon cfg.auth.bootstrap_username;
      password_hash = hash_password p cfg.auth.password_pepper cfg.auth.bootstrap_password;
      roles = "admin" ∷ [];
    }

    -- A start over a store without the first user leaves it there.
    start_puts :
        (users : U) (store : Option T) (disk : Disk B) (s : Service U T B)
        → Valid users
        → p.users.get_by_username users name ≡ err user_not_found
        → start_auth p cfg users store disk ≡ ok s
        → p.users.get_by_username s.users name ≡ ok first_user
    unfolding bootstrap_user
    start_puts users store disk s valid absent started =
        let (s1, same, pepper, ensured) = start_auth_ok cfg users store disk s started in
        let gone : p.users.get_by_username s1.users name ≡ err user_not_found = rw same absent in
        let (good, after) = put_user_ok p name password s1 gone (ap (λ q. q.0) ensured) in
        let left : s.users ≡ (put_user p name password s1).1 =
          sym (ap (λ q. q.1.users) ensured) ∙ ap (λ x. x.users) after in
        rw left (
          laws.get-put s1.users (bootstrap_user p name password s1) name (rw same valid) good
          ∙ rw (eq_refl (canon name), pepper) refl)

    -- A start over a store that has the first user leaves the store as it was.
    start_keeps :
        (users : U) (u : User) (store : Option T) (disk : Disk B) (s : Service U T B)
        → p.users.get_by_username users name ≡ ok u
        → start_auth p cfg users store disk ≡ ok s
        → (s.users ≡ users) × (s.pepper ≡ cfg.auth.password_pepper)
    unfolding ensure_bootstrap_user
    start_keeps users u store disk s known started =
        let (s1, same, pepper, ensured) = start_auth_ok cfg users store disk s started in
        let there : p.users.get_by_username s1.users name ≡ ok u = rw same known in
        let idle : ensure_bootstrap_user p name password s1 ≡ (ok tt, s1) =
          rw (there, ensure_bootstrap_user) refl in
        let kept : s ≡ s1 = ap (λ q. q.1) (sym ensured ∙ idle) in
        (ap (λ x. x.users) kept ∙ same, ap (λ x. x.pepper) kept ∙ pepper)

    -- Over a user store that keeps its promise and did not have the first user: after a start that
    -- succeeded, and a second one with the same configuration over what the user store had then, a
    -- login with the configured name and password goes as far as opening a session of the first user,
    -- as soon as a token can be made.
    pub login_after_second_start :
        (users : U) (store store' : Option T) (disk disk' : Disk B) (s s' : Service U T B)
        → Valid users
        → p.users.get_by_username users cfg.auth.bootstrap_username ≡ err user_not_found
        → start_auth p cfg users store disk ≡ ok s
        → start_auth p cfg s.users store' disk' ≡ ok s'
        → (now : ℕ) (random : Randomness) (token : String)
        → generate_token 32 random.for_token ≡ ok token
        → login p now random cfg.auth.bootstrap_username cfg.auth.bootstrap_password s'
          ≡ open_session p (new_session p now random token first_user s') s'
    unfolding verify_password
    login_after_second_start users store store' disk disk' s s' valid absent first second now random
          token made =
        let known = start_puts users store disk s valid absent first in
        let (same, pepper) = start_keeps s.users first_user store' disk' s' known second in
        login_opens p now random name password s' first_user token (rw same known)
          (rw pepper (eq_refl _)) made

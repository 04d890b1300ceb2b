-- ===== src/App/Restart.antt =====
-- What a second start on the same files finds.
use mathlib.Core.Option
use modern_mcs.Prelude.{
  ℕ, String, ◌≡◌, ◌≢◌, refl, ap, sym, subst, ◌∙◌, inl, inr, arith, List, none, some, Result, ok,
  err, Result-cases, Option-cases, eq_iff, eq_refl,
}
use modern_mcs.Text.{trim_space}
use modern_mcs.Text.Trim.{trim_space_idem}
use modern_mcs.Dict.{lookup, insert}
use modern_mcs.Dict.Laws.{lookup-insert, insert-HasDistinctKeys}
use modern_mcs.Disk.{Disk}
use modern_mcs.Codec.{Codec}
use modern_mcs.Config.Defs.{Config}
use modern_mcs.Auth.Types.{User, invalid_credentials, is_user_not_found}
use modern_mcs.Auth.Users.Memory.{found_user}
use modern_mcs.Auth.Users.Laws.{IsKeyed}
use modern_mcs.Auth.Users.File.{
  UserJson, FileUserStore, persist_locked, new_file_user_store, file_get_by_username, file_put,
  file_user_store,
}
use modern_mcs.Auth.Users.Opened.{
  IsOpened, new_file_user_store-IsOpened, new_file_user_store-trim_space,
}
use modern_mcs.Auth.Users.Reload.{without_hash, new_file_user_store-persist_locked}
use modern_mcs.Auth.State.{Platform, Service, Randomness}
use modern_mcs.Auth.Service.{login}
use modern_mcs.Auth.Bootstrap.{bootstrap_user, ensure_bootstrap_user, put_user_ok}
use modern_mcs.Auth.Lockout.{login_after_reload}
use modern_mcs.SqlProfile.Types.{Profile}
use modern_mcs.SqlProfile.Service as profiles
use modern_mcs.Migrations.Store.{FileAppliedStore}
use modern_mcs.App.Start.{start_auth_ok}
use modern_mcs.App.{StartError, App, Disks, then_with, start_auth, start_on_files}

-- A last step that succeeds gives what is made of its value.
then_ok :
    {E A C : Type 0} (wrap : E → StartError) (r : Result E A) (make : A → C) (c : C)
    → then_with wrap r (λ a. ok (make a)) ≡ ok c
    → (a : A) × (make a ≡ c)
then_ok wrap (ok a) make c h = (a, ground arith)
then_ok wrap (err e) make c h = let bad : ⊥ = ground arith in absurd bad

-- A user that was put into a store without an error is there, without its hash, when the file is
-- opened again.
reload-file_put :
    {F : Type 0} (json : Codec (List UserJson) F) (path : String) (disk : Disk F)
    (s : FileUserStore F) (user : User)
    → IsOpened json path disk s
    → trim_space user.username ≢ ""
    → (file_put json s user).0 ≡ ok tt
    → (s' : FileUserStore F) × (new_file_user_store json path (file_put json s user).1.disk ≡ ok s')
      × (lookup user.username s'.users ≡ some (without_hash user))
unfolding file_put
reload-file_put {F = F} json path disk s user is proper h =
    let written : FileUserStore F = record s { users = insert user.username user s.users } in
    let keyed : IsKeyed written.users = λ n x e.
      ground
        (arith, lookup-insert user.username n user s.users, eq_iff user.username n, is.keyed n x) in
    let trimmed : trim_space s.path ≡ s.path =
      ap trim_space is.at ∙ trim_space_idem path ∙ sym is.at in
    let here : lookup user.username written.users ≡ some user =
      lookup-insert user.username user.username user s.users ∙ rw (eq_refl user.username) in
    let (s', opened, same) =
      new_file_user_store-persist_locked json written keyed
        (insert-HasDistinctKeys user.username user s.users is.distinct) trimmed is.named h in
    (
      s',
      sym (new_file_user_store-trim_space json path _)
          ∙ ap (λ (x : String). new_file_user_store json x (persist_locked json written).1.disk)
              (sym is.at)
          ∙ opened,
      same user.username proper ∙ ap (Option.map without_hash) here,
    )

module _ {T B F : Type 0} (p : Platform (FileUserStore F) T B)
    (users_json : Codec (List UserJson) F) (over : p.users ≡ file_user_store users_json)
    (cfg : Config) where
  abbrev name : String
  name = cfg.auth.bootstrap_username

  abbrev path : String
  path = cfg.auth.user_state_file

  -- A start on files opens the user store and then the auth service.
  start_on_files_ok :
      {C S : Type 0} (profiles_json : Codec (List Profile) C) (disks : Disks B F C S)
      (app : App (FileUserStore F) T B (profiles.Service C) (FileAppliedStore S))
      → start_on_files p users_json profiles_json cfg disks ≡ ok app
      → (users : FileUserStore F) × (new_file_user_store users_json path disks.users ≡ ok users)
        × (start_auth p cfg users none disks.sessions ≡ ok app.auth)
  unfolding start_on_files
  start_on_files_ok {C = C} {S = S} profiles_json disks app h =
      elim (Result-cases (new_file_user_store users_json path disks.users)) [
        | inr (e, bad) ↦ let no = rw (bad, start_on_files) at h in cc
        | inl (users, opened) ↦
            let rest = rw (opened, start_on_files) at h in
            elim (Result-cases (start_auth p cfg users none disks.sessions)) [
              | inr (e, bad) ↦ let no = rw bad at rest in cc
              | inl (s, started) ↦
                  let (x, made) = then_ok _ _ _ app (rw started at rest) in
                  let same : s ≡ app.auth =
                    ap
                      (λ (a : App (FileUserStore F) T B (profiles.Service C) (FileAppliedStore S)).
                        a.auth)
                      made in
                  (users, opened, started ∙ ap ok same)
            ]
      ]

  get_by_username-eq :
      (users : FileUserStore F) (n : String)
      → p.users.get_by_username users n ≡ found_user (lookup n users.users)
  unfolding file_get_by_username
  get_by_username-eq users n = ap (λ st. st.get_by_username users n) over

  -- The first user is put there only where the store does not have it.
  ensure_present :
      (s : Service (FileUserStore F) T B) (password : String) (u : User)
      → lookup name s.users.users ≡ some u
      → ensure_bootstrap_user p name password s ≡ (ok tt, s)
  unfolding ensure_bootstrap_user
  ensure_present s password u found =
      rw (get_by_username-eq s.users name ∙ ap found_user found, ensure_bootstrap_user) refl

  ensure_absent :
      (s s' : Service (FileUserStore F) T B) (password : String)
      → lookup name s.users.users ≡ none
      → ensure_bootstrap_user p name password s ≡ (ok tt, s')
      → ((file_put users_json s.users (bootstrap_user p name password s)).0 ≡ ok tt)
        × (s'.users ≡ (file_put users_json s.users (bootstrap_user p name password s)).1)
  unfolding ensure_bootstrap_user is_user_not_found
  ensure_absent s s' password absent h =
      let gone = get_by_username-eq s.users name ∙ ap found_user absent in
      let put_eq = ap (λ st. st.put s.users (bootstrap_user p name password s)) over in
      let (good, after) = put_user_ok p name password s gone (ap (λ q. q.0) h) in
      (
        sym (ap (λ q. q.0) put_eq) ∙ good,
        sym (ap (λ q. q.1.users) h) ∙ ap (λ x. x.users) after ∙ ap (λ q. q.1) put_eq,
      )

  -- A start on a user file that has the first user opens the file and leaves it at that.
  start_present :
      {C S : Type 0} (profiles_json : Codec (List Profile) C) (disks : Disks B F C S)
      (app : App (FileUserStore F) T B (profiles.Service C) (FileAppliedStore S))
      (users : FileUserStore F) (u : User)
      → start_on_files p users_json profiles_json cfg disks ≡ ok app
      → new_file_user_store users_json path disks.users ≡ ok users
      → lookup name users.users ≡ some u
      → app.auth.users ≡ users
  start_present profiles_json disks app users u started opened found =
      let (users', opened', start) = start_on_files_ok profiles_json disks app started in
      let (s1, same, _, ensured) = start_auth_ok p cfg users' none disks.sessions app.auth start in
      let again : users' ≡ users = ground (arith, opened, opened') in
      let there : lookup name s1.users.users ≡ some u = rw (same, again) found in
      let idle = ensure_present s1 cfg.auth.bootstrap_password u there in
      sym (ap (λ q. q.1.users) (sym idle ∙ ensured)) ∙ same ∙ again

  -- What a first start leaves in the user file has the first user, where its name is not blank.
  start_leaves :
      {C S : Type 0} (profiles_json : Codec (List Profile) C) (disks : Disks B F C S)
      (app : App (FileUserStore F) T B (profiles.Service C) (FileAppliedStore S))
      → trim_space name ≢ ""
      → start_on_files p users_json profiles_json cfg disks ≡ ok app
      → (users : FileUserStore F) × (new_file_user_store users_json path app.auth.users.disk
          ≡ ok users)
        × ((u : User) × (lookup name users.users ≡ some u))
  unfolding bootstrap_user
  start_leaves profiles_json disks app proper started =
      let (users, opened, start) = start_on_files_ok profiles_json disks app started in
      let (s1, same, _, ensured) = start_auth_ok p cfg users none disks.sessions app.auth start in
      let is = new_file_user_store-IsOpened users_json path disks.users users opened in
      elim (Option-cases (lookup name users.users)) [
        | inr (u, found) ↦
            let idle = ensure_present s1 cfg.auth.bootstrap_password u (rw same found) in
            let kept : app.auth.users ≡ users =
              sym (ap (λ q. q.1.users) (sym idle ∙ ensured)) ∙ same in
            (users, rw (kept, is.on) opened, (u, found))
        | inl absent ↦
            let first = bootstrap_user p name cfg.auth.bootstrap_password s1 in
            let (good, after) =
              ensure_absent s1 app.auth cfg.auth.bootstrap_password (rw same absent) ensured in
            let (users', opened', there) =
              reload-file_put users_json path disks.users users first is proper (
                subst (λ (x : FileUserStore F). (file_put users_json x first).0 ≡ ok tt) same
                  good) in
            let kept : app.auth.users ≡ (file_put users_json users first).1 =
              subst (λ (x : FileUserStore F). app.auth.users ≡ (file_put users_json x first).1) same
                after in
            (users', rw kept opened', (without_hash first, there))
      ]

  -- After a start on files that succeeded, with a name of the first user that is not blank: a second
  -- start with the same configuration on the user file that the first one left, if it succeeds,
  -- refuses every login as invalid credentials, also that of the first user.
  pub login_after_restart :
      {C S : Type 0} (profiles_json : Codec (List Profile) C) (disks disks' : Disks B F C S)
      (app app' : App (FileUserStore F) T B (profiles.Service C) (FileAppliedStore S))
      → trim_space cfg.auth.bootstrap_username ≢ ""
      → start_on_files p users_json profiles_json cfg disks ≡ ok app
      → disks'.users ≡ app.auth.users.disk
      → start_on_files p users_json profiles_json cfg disks' ≡ ok app'
      → (now : ℕ) (random : Randomness) (username password : String)
      → login p now random username password app'.auth ≡ (err invalid_credentials, app'.auth)
  login_after_restart profiles_json disks disks' app app' proper first left second now random
        username password =
      let (users, opened, (u, found)) = start_leaves profiles_json disks app proper first in
      let opened' : new_file_user_store users_json path disks'.users ≡ ok users = rw left opened in
      let kept = start_present profiles_json disks' app' users u second opened' found in
      login_after_reload p users_json over path disks'.users app'.auth (opened' ∙ ap ok (sym kept))
        now random username password

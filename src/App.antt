-- ===== src/App.antt =====
-- internal/app/app.go: `New`, which puts the program together.
pub mod Start
pub mod Restart
use modern_mcs.Prelude.{
  ℕ, String, ◌⊎◌, inl, inr, List, Bool, true, false, Option, none, some, Result, ok, err, not, ◌==◌,
  if◌then◌else◌,
}
use modern_mcs.Disk.{Disk}
use modern_mcs.Codec.{Codec}
use modern_mcs.Config.Defs.{Config}
use modern_mcs.Auth.Types as auth
use modern_mcs.Auth.Users.File.{UserJson, FileUserStore, new_file_user_store}
use modern_mcs.Auth.Users.Pg.{PgUserStore, new_postgres_user_store}
use modern_mcs.Auth.Sessions.Table.{PgSessionStore, new_postgres_session_store}
use modern_mcs.Auth.State.{Platform, Service, ServiceConfig, new_service}
use modern_mcs.Auth.Persistence.{load_session_state}
use modern_mcs.Auth.Bootstrap.{ensure_bootstrap_user}
use modern_mcs.SqlProfile.Types.{Profile}
use modern_mcs.SqlProfile.Types as sqlprofile
use modern_mcs.SqlProfile.Service as profiles
use modern_mcs.SqlProfile.Service.{new_service_with_file}
use modern_mcs.SqlProfile.Pg.{PgService, new_pg_service}
use modern_mcs.Migrations.Types as migrations
use modern_mcs.Migrations.Store.{FileAppliedStore, PgAppliedStore, new_service_with_postgres}
use modern_mcs.Migrations.Store as applied
use modern_mcs.Audit.{Logger, Faults, new_logger}

-- An error of `New`: what it was about, and the error inside.
pub data StartError : Type 0 where
  database : String → StartError
  in_auth : auth.Error → StartError
  in_profiles : String → sqlprofile.Error → StartError
  in_migrations : String → migrations.Error → StartError

-- What the handlers work on, over the states of the services.
pub record App (U T B P M : Type 0) : Type 0 where
  pub auth : Service U T B
  pub profiles : P
  pub migrations : M
  pub audit : Logger

-- `fmt.Errorf("…: %w", err)` of an error of the package `auth`.
abbrev pub in_auth_at : String → auth.Error → StartError
in_auth_at text e = in_auth (auth.wrap text e)

-- Another error is wrapped; a value goes on.
abbrev pub then_with :
    {E A C : Type 0}
    → (E → StartError)
    → Result E A
    → (A → Result StartError C)
    → Result StartError C
then_with wrap (ok a) next = next a
then_with wrap (err e) next = err (wrap e)

unfoldable pub service_config : {T : Type 0} → Config → Option T → ServiceConfig T
service_config cfg session_store = record {
  password_pepper = cfg.auth.password_pepper;
  session_ttl = cfg.auth.session_ttl;
  session_state_file = cfg.auth.session_state_file;
  session_store = session_store;
}

-- The middle of `New`: the auth service over the stores, its sessions and its first user.
unfoldable pub start_auth :
    {U T B : Type 0}
    → Platform U T B
    → Config
    → U
    → Option T
    → Disk B
    → Result StartError (Service U T B)
unfolding service_config
start_auth p cfg users session_store disk =
    then_with (in_auth_at "create auth service")
      (new_service (some users) (service_config cfg session_store) disk)
      (λ s.
        let (loaded, s1) = load_session_state p s in
        then_with (in_auth_at "load auth session state") loaded (λ done.
          let (put, s2) =
            ensure_bootstrap_user p cfg.auth.bootstrap_username cfg.auth.bootstrap_password s1 in
          then_with in_auth put (λ done'. ok s2)))

-- What the files of the program stand on: a disk for each of them, as their paths differ.
pub record Disks (B F C S : Type 0) : Type 0 where
  pub users : Disk F
  pub sessions : Disk B
  pub profiles : Disk C
  pub applied : Disk S
  pub audited : String
  pub audit_faults : Faults

-- `New` without a database.
unfoldable pub start_on_files :
    {T B F C S : Type 0}
    → Platform (FileUserStore F) T B
    → Codec (List UserJson) F
    → Codec (List Profile) C
    → Config
    → Disks B F C S
    → Result StartError (App (FileUserStore F) T B (profiles.Service C) (FileAppliedStore S))
unfolding start_auth
start_on_files p users_json profiles_json cfg disks =
    then_with (in_auth_at "create user store")
      (new_file_user_store users_json cfg.auth.user_state_file disks.users)
      (λ users.
        then_with {E = StartError} (λ e. e) (start_auth p cfg users none disks.sessions)
          (λ service.
            then_with (in_profiles "create sql profile service")
              (new_service_with_file profiles_json cfg.sql_profile_state_file disks.profiles)
              (λ profiles. ok (record {
                auth = service;
                profiles = profiles;
                migrations = applied.new_service cfg.migration_state_file disks.applied;
                audit = new_logger cfg.audit_log_file disks.audited disks.audit_faults;
              }))))

-- A database: whether it opens and answers, and its tables.
pub record Database (R : Type 0) : Type 0 where
  pub open_fails : Bool
  pub ping_fails : Bool
  pub users : PgUserStore R
  pub sessions : PgSessionStore R
  pub profiles : PgService
  pub applied : PgAppliedStore
  pub audited : String
  pub audit_faults : Faults

-- `New` with a database.
unfoldable pub start_on_postgres :
    {B R : Type 0}
    → Platform (PgUserStore R) (PgSessionStore R) B
    → Config
    → Database R
    → Disk B
    → Result StartError (App (PgUserStore R) (PgSessionStore R) B PgService PgAppliedStore)
unfolding start_auth
start_on_postgres p cfg db disk =
    if db.open_fails
    then err (database "open database")
    else if db.ping_fails
    then err (database "ping database")
    else then_with (in_auth_at "create postgres user store")
        (new_postgres_user_store (some db.users))
        (λ users.
          then_with (in_auth_at "create postgres session store")
            (new_postgres_session_store (some db.sessions))
            (λ sessions.
              then_with {E = StartError} (λ e. e) (start_auth p cfg users (some sessions) disk)
                (λ service.
                  then_with (in_profiles "create postgres sql profile service")
                    (new_pg_service (some db.profiles))
                    (λ profiles.
                      then_with (in_migrations "create postgres migration service")
                        (new_service_with_postgres (some db.applied))
                        (λ migrations. ok (record {
                          auth = service;
                          profiles = profiles;
                          migrations = migrations;
                          audit = new_logger cfg.audit_log_file db.audited db.audit_faults;
                        }))))))

-- `New`: there is a database where the configuration has its URL.
unfoldable pub new :
    {T B F C S R : Type 0}
    → Platform (FileUserStore F) T B
    → Platform (PgUserStore R) (PgSessionStore R) B
    → Codec (List UserJson) F
    → Codec (List Profile) C
    → Config
    → Disks B F C S
    → Database R
    → Result StartError (
        App (FileUserStore F) T B (profiles.Service C) (FileAppliedStore S)
        ⊎ App (PgUserStore R) (PgSessionStore R) B PgService PgAppliedStore)
unfolding start_on_files start_on_postgres
new p q users_json profiles_json cfg disks db =
    if cfg.database_url == ""
    then then_with (λ e. e) (start_on_files p users_json profiles_json cfg disks)
        (λ app. ok (inl app))
    else then_with (λ e. e) (start_on_postgres q cfg db disks.sessions) (λ app. ok (inr app))

-- What `Run` waits for: the signal to shut down, with what `Shutdown` returns then, or the end of
-- `Start`, with whether its error is `http.ErrServerClosed`.
pub data Ending : Type 0 where
  signalled : Option String → Ending
  exited : Bool → Ending

-- The `select` of `Run`.
unfoldable pub run : Ending → Result String (Unit {0})
run (signalled none) = ok tt
run (signalled (some e)) = err "shutdown server"
run (exited true) = ok tt
run (exited false) = err "server exited"

-- ===== src/Lib.antt =====
-- Verification of modern-mcs, the API server of this repository.
--
-- The program is a Go server. `internal/app` reads the configuration (`internal/config`), opens the
-- stores, puts the first user into the user store, and hands three services to the HTTP server
-- (`internal/httpserver`): sessions and passwords (`internal/auth`), profiles of SQL servers
-- (`internal/sqlprofile`) and the bookkeeping of migrations (`internal/migrations`). The HTTP server
-- checks the bearer token of a request with the auth service before it calls a service that asks for
-- the role `admin`, and logs what it does (`internal/audit`).
--
-- Which file is about which code:
--   Auth.Types         internal/auth/types.go, the errors and the interfaces `UserStore` and
--                      `SessionStore`
--   Auth.Policy        validatePasswordPolicy of internal/auth/service.go
--   Postgres           what the stores rely on of a PostgreSQL server
--   Auth.Users         internal/auth/store.go (Memory), store_file.go (File) and store_postgres.go
--                      (Pg), what they promise (Laws), and what a restart finds in the file (Opened,
--                      Reload)
--   Auth.Sessions      internal/auth/session_store_postgres.go (Table), what a session store promises
--                      (Laws), and the transaction (Atomic)
--   Auth.State, Auth.Persistence, Auth.Service
--                      the rest of internal/auth/service.go: its state and the making of tokens, the
--                      writing and loading of the sessions, and the methods; the child modules of
--                      Auth.Service prove what each method does (Login, Tokens, Listing, Password,
--                      NewPassword, Lifetime), what holds over histories of calls (Run, Origin) and
--                      over a restart (Durability)
--   Auth.Bootstrap     the first user, in `New` of internal/app/app.go
--   Auth.Lockout       the auth service over a user file that was read back
--   SqlProfile         internal/sqlprofile/types.go, service.go (Service) and service_postgres.go (Pg),
--                      and the specification of both (Spec, with a refinement for each in Spec.File and
--                      Spec.Postgres, histories in Spec.Runs, and the answers in Spec.Answers and
--                      Spec.FileAnswers)
--   Config             internal/config/config.go
--   Migrations         internal/migrations/service.go, with both of its stores
--   Http               internal/httpserver/server.go: Types (interfaces, requests, responses), Guard
--                      (requireSession, hasRole, extractBearerToken, auditReq), Sessions and Admin (the
--                      handlers), Routes (NewHandler), Frontend (registerFrontendHandlers), Middleware
--                      (New and the request id), Wiring (the services as interfaces, as in
--                      internal/app/app.go); Access, Protect, Audit, Header, Paths, Answers, Lifetime,
--                      Files, Trace and RequestId prove what it does
--   Audit              internal/audit/logger.go, and what its file holds (Journal)
--   App                internal/app/app.go, and what a second start finds (Start, and Restart where
--                      the stores are files)
--   Commands.Wait      cmd/waitforpostgres/main.go, and how it ends (Ends)
--   Text, Dict, Disk, Codec
--                      what the code uses of `strings`, `path`, `encoding/hex`, maps, `os` and
--                      `encoding/json`
--   Tests              the model on concrete data
--
-- How the model stands to the code:
--   - A method of a service is a function from the service's state to its result and the new state; the
--     state comes back also where the method fails. Each method is one step, and a history is a list of
--     calls. The mutexes of the code make many methods one step, but not all: `ValidateToken` lets go
--     of the lock between the look at the session and its removal; `Login` takes it only after the
--     check of the password, and `ChangePassword` holds none around its calls; `SetApplied` on a file
--     reads, changes and writes the file without a lock, and `Status` lists the files and then loads
--     the state; and `Update` on PostgreSQL runs the `UPDATE` and then the `Get`. What other calls do
--     in between is not covered.
--   - The clock and the random source are arguments of a call. An instant is a number of nanoseconds.
--   - An error is a value: the sentinel errors are constructors, `wrap` is `fmt.Errorf` with `%w`, and a
--     text that the operating system or a library adds to a message is left out.
--   - A map is an association list, whose order is the open order of `range`. A slice or a struct that
--     the code clones is a value here, so cloning does nothing.
--   - A text is a sequence of Unicode scalar values, so a text that is not valid UTF-8 is not covered.
--     Lower-casing is exact on the ASCII letters and leaves other letters alone. The code compares the
--     lower case with `mysql`, `mssql` and `pgsql` only, and folds case against `Bearer` and `admin`
--     only; no letter outside ASCII has a letter of the former as its lower case, or folds to a letter
--     of the latter.
--   - A duration wraps around in 64 bits, as the product in `Load` does.
--   - A table of PostgreSQL is a map from its key to the rest of the row, and a statement of SQL is the
--     function on it that the statement says. Which statements fail is a part of a store's state. A
--     command that changes rows is applied, refused, or applied with its answer lost; a transaction
--     works on its own copy until its commit. A `TIMESTAMPTZ` column keeps an instant to within a
--     microsecond, and a `JSONB` column the value of a text.
--   - The files of the program have different paths, so each part has a disk of its own.
--   - The loop of waitforpostgres recurses on fuel, two more than the number of pauses of two seconds
--     until the deadline, and each round takes at least one pause.
--   - `decimal` recurses on fuel, one more than the number, which has at most that many digits.
--   - Parameters: SHA-256, the text that `encoding/json` makes of a value (with the laws that decoding
--     gives the value back and that a map comes back with each key once), the Unicode tables, RFC 3339,
--     `net.SplitHostPort`, the faults of the disk and of the database, the migrations directory, and
--     what `http.ServeFile` and `http.FileServer` write for a file. The path of a request without an
--     API handler is the one that `ServeMux` passes on.
--
-- Not modelled: what a start that fails leaves behind, the calls of `log/slog`
-- (internal/observability), the listening and the shutdown of the HTTP server, cmd/server, which
-- only calls what is modelled, and the web frontend. A JSON file that holds `null` where the code
-- expects an object is not covered, and neither are requests that run at the same time, beyond the
-- order of their calls.
pub mod Prelude
pub mod Text
pub mod Dict
pub mod Disk
pub mod Codec
pub mod Postgres
pub mod Auth
pub mod SqlProfile
pub mod Config
pub mod Migrations
pub mod Http
pub mod Audit
pub mod App
pub mod Commands
pub mod Tests

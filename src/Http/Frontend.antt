-- ===== src/Http/Frontend.antt =====
-- `registerFrontendHandlers` of internal/httpserver/server.go: which file of the frontend a path gets.
use modern_mcs.Prelude.{String, Bool, false, ◌||◌, Option, none, some, ◌==◌, if◌then◌else◌}
use modern_mcs.Text.{trim_space, has_prefix, trim_prefix}
use modern_mcs.Text.Path.{clean, join}
use modern_mcs.Http.Types.{Response, Environment}

-- What `os.Stat` finds: `none` where it fails, and else whether there is a directory.
abbrev pub Stat : Type 0
Stat = String → Option Bool

-- What the handler answers with: `http.NotFound`, `http.ServeFile` of a file, or the file server, which
-- looks for the file at a path.
pub data Served : Type 0 where
  not_found : Served
  serve_file : String → Served
  from_directory : String → Served

abbrev pub index_path : String → String
index_path dist_dir = join dist_dir "index.html"

-- The handler, by the path of a request.
unfoldable pub frontend_handler : Stat → String → String → Served
frontend_handler stat dist_dir path =
    if has_prefix path "/v1/" || path == "/healthz" || path == "/readyz"
    then not_found
    else (let clean_path = clean path in
        if clean_path == "." || clean_path == "/"
        then serve_file (index_path dist_dir)
        else (let full_path = join dist_dir (trim_prefix clean_path "/") in
            elim (stat full_path) [
              | some false ↦ from_directory full_path
              | _ ↦ serve_file (index_path dist_dir)
            ]))

-- `none` where no handler is registered.
unfoldable pub register_frontend_handlers : Stat → String → Option (String → Served)
unfolding frontend_handler
register_frontend_handlers stat given =
    let dist_dir = trim_space given in
    if dist_dir == "" then none else elim (stat (index_path dist_dir)) [
      | none ↦ none
      | some is_dir ↦ some (frontend_handler stat dist_dir)
    ]

-- The answers on the paths without a handler for the API; `answer` is what the file server and
-- `http.NotFound` write.
abbrev pub with_frontend :
    {B : Type 0} → Environment B → (Served → Response) → Option (String → Served) → Environment B
with_frontend env answer frontend = record env {
  fallback =
      λ r. elim frontend [ none ↦ answer not_found | some handler ↦ answer (handler r.path) ];
}

-- ===== src/Http/Files.antt =====
-- Which files the frontend handler gives away.
use modern_mcs.Prelude.{
  String, ◌≡◌, ◌≢◌, refl, ap, subst, ◌∙◌, ◌⊎◌, inl, inr, Bool, true, false, ◌||◌, arith, none, some,
  Option-cases, Bool-cases, not-eq→ne, ◌==◌,
}
use modern_mcs.Text.{trim_space, has_prefix, trim_prefix}
use modern_mcs.Text.Path.{clean, join}
use modern_mcs.Text.Path.Below.{IsBelow, join-IsBelow}
use modern_mcs.Http.Frontend.{
  Stat, Served, not_found, serve_file, from_directory, index_path, frontend_handler,
  register_frontend_handlers,
}

-- The paths that the handler leaves to the API.
abbrev pub is_api_path : String → Bool
is_api_path path = has_prefix path "/v1/" || path == "/healthz" || path == "/readyz"

-- What a path gets: nothing where it belongs to the API, or the index, or a file that is there and
-- stands below the directory.
abbrev pub IsServed : Stat → String → String → Served → Type 0
IsServed stat dist_dir path served =
    ((is_api_path path ≡ true) × (served ≡ not_found))
    ⊎ ((is_api_path path ≡ false)
        × ((served ≡ serve_file (index_path dist_dir))
            ⊎ ((file : String) × IsBelow dist_dir file
                × (stat file ≡ some false)
                × (served ≡ from_directory file))))

frontend_handler-IsServed :
    (stat : Stat) (dist_dir path : String)
    → dist_dir ≢ ""
    → has_prefix path "/" ≡ true
    → IsServed stat dist_dir path (frontend_handler stat dist_dir path)
unfolding frontend_handler
frontend_handler-IsServed stat dist_dir path named rooted = elim (Bool-cases (is_api_path path)) [
  | inl api ↦ inl (api, rw api refl)
  | inr other ↦ elim (Bool-cases (clean path == "." || clean path == "/")) [
    | inl top ↦ inr (other, inl (rw (other, top) refl))
    | inr deep ↦
        let file = join dist_dir (trim_prefix (clean path) "/") in
        let below =
          join-IsBelow dist_dir path named rooted (not-eq→ne (clean path) "/" (ground arith)) in
        inr (
          other,
          elim (Option-cases (stat file)) [
            | inl gone ↦ inl (rw (other, deep, gone) refl)
            | inr (is_dir, there) ↦ elim (Bool-cases is_dir) [
              | inl dir ↦ inl (rw (other, deep, there, dir) refl)
              | inr plain ↦
                  inr (file, below, there ∙ ap some plain, rw (other, deep, there, plain) refl)
            ]
          ],
        )
  ]
]

-- A handler for the frontend is registered only where its directory is not blank and has an index;
-- for a path from the root, it answers that there is nothing where the path belongs to the API, and
-- else with the index, or with a file that is there and stands below the directory: its path has the
-- elements of the directory, and behind them elements that are neither empty nor `.` nor `..`.
pub register_frontend_handlers-IsServed :
    (stat : Stat) (given : String) (handler : String → Served) (path : String)
    → register_frontend_handlers stat given ≡ some handler
    → has_prefix path "/" ≡ true
    → (trim_space given ≢ "")
      × (stat (index_path (trim_space given)) ≢ none)
      × IsServed stat (trim_space given) path (handler path)
unfolding register_frontend_handlers
register_frontend_handlers-IsServed stat given handler path h rooted =
    elim (Bool-cases (trim_space given == "")) [
      | inl blank ↦ let no = rw (blank, register_frontend_handlers) at h in cc
      | inr named ↦ elim (Option-cases (stat (index_path (trim_space given)))) [
        | inl gone ↦
            let no = rw (named, register_frontend_handlers) at h in let no' = rw gone at no in cc
        | inr (is_dir, there) ↦
            let h' = rw (named, register_frontend_handlers) at h in
            let h'' = rw there at h' in
            let same : frontend_handler stat (trim_space given) ≡ handler =
              ap (λ o. elim o [ some f ↦ f | none ↦ handler ]) h'' in
            let dir : trim_space given ≢ "" = not-eq→ne (trim_space given) "" named in
            (
              dir,
              λ e. cc,
              subst (λ (f : String → Served). IsServed stat (trim_space given) path (f path)) same
                  (frontend_handler-IsServed stat (trim_space given) path dir rooted),
            )
      ]
    ]

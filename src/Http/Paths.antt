-- ===== src/Http/Paths.antt =====
-- The names and ids that the handlers of internal/httpserver/server.go take from a path.
use Prim.Native.String
use modern_mcs.Prelude.{String, ◌≡◌, ◌≢◌, refl, ap, ◌∙◌, true, false, some, ne→not-eq}
use modern_mcs.Text.{trim_prefix, trim_suffix, has_suffix, contains_char}
use modern_mcs.Text.Affix.{
  trim_prefix-append, has_suffix-append, trim_suffix-append, trim_suffix-absent,
}
use modern_mcs.Auth.Types.{Session}
use modern_mcs.Http.Types.{MigrationService, Deps, World, Request, Environment}
use modern_mcs.Http.Admin.{apply_as, answer_apply}

module _ {B : Type 0} (env : Environment B) {A P M : Type 0} (deps : Deps A P M) (admin : Session)
    (r : Request B) (w : World A P M) where
  -- A path that is `/v1/system/migrations/`, a name that is not empty and has no slash, and `/apply`
  -- makes the handler mark the migration of exactly that name, at the time of the request, and answer
  -- with the result.
  apply_as-path :
      (svc : MigrationService M)
      → deps.migrations ≡ some svc
      → (name : String) → name ≢ ""
      → contains_char name b'/' ≡ false
      → r.path ≡ String.◌++◌ "/v1/system/migrations/" (String.◌++◌ name "/apply")
      → apply_as env deps admin r w
        ≡ answer_apply env deps admin name
            (svc.mark_applied name r.acts_at w.migrations).0
            r
            (record w { migrations = (svc.mark_applied name r.acts_at w.migrations).1 })
  unfolding apply_as
  apply_as-path svc over name named flat at =
      let rest : trim_prefix r.path "/v1/system/migrations/" ≡ String.◌++◌ name "/apply" =
        ap (λ t. trim_prefix t "/v1/system/migrations/") at
        ∙ trim_prefix-append "/v1/system/migrations/" (String.◌++◌ name "/apply") in
      let ends : has_suffix (trim_prefix r.path "/v1/system/migrations/") "/apply" ≡ true =
        ap (λ t. has_suffix t "/apply") rest ∙ has_suffix-append name "/apply" in
      let taken : trim_suffix (trim_suffix (trim_prefix r.path "/v1/system/migrations/") "/apply")
            "/"
          ≡ name =
        ap (λ t. trim_suffix (trim_suffix t "/apply") "/") rest
        ∙ ap (λ t. trim_suffix t "/") (trim_suffix-append name "/apply")
        ∙ trim_suffix-absent name flat in
      rw (over, apply_as) (rw (ends, taken) (rw (ne→not-eq name "" named, flat) refl))

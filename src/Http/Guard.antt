-- ===== src/Http/Guard.antt =====
-- The helpers of internal/httpserver/server.go: the bearer token, the role, the audit event, and
-- `requireSession`.
use Prim.Native.String
use modern_mcs.Prelude.{
  ℕ, String, Bool, true, false, not, ◌&&◌, ◌||◌, List, [], ◌∷◌, ◌++◌, Option, none, some, Result,
  ok, err, ◌==◌, if◌then◌else◌,
}
use modern_mcs.Text.{trim_space, equal_fold, cut}
use modern_mcs.Auth.Types.{Session}
use modern_mcs.Http.Types.{Deps, World, Request, error_body, Response, Environment}

unfoldable pub extract_bearer_token : String → Option String
extract_bearer_token header = elim (cut header b' ') [
  | none ↦ none
  | some (scheme, rest) ↦
      if not (equal_fold scheme "Bearer") || trim_space rest == ""
      then none
      else some (trim_space rest)
]

unfoldable pub has_role : List String → String → Bool
has_role [] role = false
has_role (r ∷ roles) role = if equal_fold (trim_space r) role then true else has_role roles role

-- `parts[0]` of `strings.Split(fwd, ",")`
abbrev first_part : String → String
first_part s = elim (cut s b',') [ none ↦ s | some (head, rest) ↦ head ]

-- `strings.Join(parts, " | ")`
unfoldable pub join : List String → String
join [] = ""
join (s ∷ []) = s
join (s ∷ t ∷ ts) = String.◌++◌ s (String.◌++◌ " | " (join (t ∷ ts)))

abbrev pub write_error : ℕ → String → Response
write_error status message = record { status = status; body = error_body message }

-- What `requireSession` does with the answer of `ValidateToken`.
unfoldable pub check_role : String → Session → Result Response Session
unfolding has_role
check_role role session =
    if not (role == "") && not (has_role session.roles role)
    then err (write_error 403 "forbidden")
    else ok session

module _ {B : Type 0} (env : Environment B) where
  unfoldable pub client_ip : Request B → String
  client_ip r =
      let fwd = trim_space r.forwarded_for in
      let real = trim_space r.real_ip in
      if not (fwd == "")
      then trim_space (first_part fwd)
      else if not (real == "")
      then real
      else elim (env.split_host_port r.remote_addr) [ some host ↦ host | none ↦ r.remote_addr ]

  -- The detail that `auditReq` puts together.
  unfoldable pub audit_detail : Request B → String → String → String
  unfolding client_ip join
  audit_detail r session_id detail = join (
      String.◌++◌ "rid=" r.request_id
        ∷ String.◌++◌ "ip=" (client_ip r)
        ∷ String.◌++◌ "ua=" (trim_space r.user_agent)
        ∷ (if not (session_id == "") then String.◌++◌ "sid=" session_id ∷ [] else [])
      ++ (if not (trim_space detail == "")
          then String.◌++◌ "detail=" (trim_space detail) ∷ []
          else []))

  module _ {A P M : Type 0} (deps : Deps A P M) where
    -- `auditReq`
    unfoldable pub audit_req :
        Request B → String → String → String → String → String → String → World A P M → World A P M
    unfolding audit_detail
    audit_req r actor action target outcome session_id detail w =
        if deps.has_audit
        then record w {
          audited =
              record {
                actor = actor;
                action = action;
                target = target;
                outcome = outcome;
                detail = audit_detail r session_id detail;
              }
              ∷ w.audited;
        }
        else w

    -- `requireSession`; the error is the response that it writes.
    unfoldable pub require_session :
        Request B → String → World A P M → Result Response Session × World A P M
    unfolding extract_bearer_token check_role
    require_session r role w = elim deps.auth [
      | none ↦ (err (write_error 503 "auth service unavailable"), w)
      | some svc ↦ elim (extract_bearer_token r.authorization) [
        | none ↦ (err (write_error 401 "missing or invalid bearer token"), w)
        | some token ↦
            let (validated, a) = svc.validate_token r.validated_at token w.auth in
            let w' = record w { auth = a } in
            elim validated [
              | err e ↦ (err (write_error 401 "invalid token"), w')
              | ok session ↦ (check_role role session, w')
            ]
      ]
    ]

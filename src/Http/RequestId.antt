-- ===== src/Http/RequestId.antt =====
-- The id of a request, from its header or made, through the server to its response and its events.
use Prim.Native.String
use modern_mcs.Prelude.{
  ℕ, String, ◌≡◌, ◌≢◌, ◌<◌, refl, subst, inl, inr, true, List, Option, none, some, length,
  Bool-cases, not-eq→ne, ne→not-eq, ◌==◌,
}
use modern_mcs.Text.{has_prefix, trim_space}
use modern_mcs.Text.Affix.{has_prefix-append}
use modern_mcs.Text.Hex.{encode_to_string-ne-empty}
use modern_mcs.Text.Decimal.{decimal}
use modern_mcs.Config.Defs.{HttpConfig}
use modern_mcs.Http.Types.{Deps, World, Environment}
use modern_mcs.Http.Middleware.{
  Incoming, Outgoing, new_request_id, request_id_of, logging_middleware, new,
}
use modern_mcs.Http.Trace.{Carries, serve-Carries}

prefixed-ne-empty : (s : String) → String.◌++◌ "req-" s ≢ ""
unfolding has_prefix
prefixed-ne-empty s e =
    let starts : has_prefix "" "req-" ≡ true =
      subst (λ (x : String). has_prefix x "req-" ≡ true) e (has_prefix-append "req-" s) in
    cc

new_request_id-ne-empty :
    (b : Option (List ℕ)) (unix_nano : ℕ)
    → ((bytes : List ℕ) → b ≡ some bytes → 0 < length bytes)
    → new_request_id b unix_nano ≢ ""
unfolding new_request_id
new_request_id-ne-empty none unix_nano filled = prefixed-ne-empty (decimal unix_nano)
new_request_id-ne-empty (some bytes) unix_nano filled =
    encode_to_string-ne-empty bytes (filled bytes refl)

request_id_of-ne-empty :
    {B : Type 0} (incoming : Incoming B)
    → ((bytes : List ℕ) → incoming.id_bytes ≡ some bytes → 0 < length bytes)
    → request_id_of incoming ≢ ""
unfolding request_id_of
request_id_of-ne-empty incoming filled = elim (Bool-cases (trim_space incoming.id_header == "")) [
  | inl blank ↦ rw blank (new_request_id-ne-empty incoming.id_bytes incoming.unix_nano filled)
  | inr given ↦ rw given (not-eq→ne (trim_space incoming.id_header) "" given)
]

request_id_of-given :
    {B : Type 0} (incoming : Incoming B)
    → trim_space incoming.id_header ≢ ""
    → request_id_of incoming ≡ trim_space incoming.id_header
unfolding request_id_of
request_id_of-given incoming given = rw (ne→not-eq (trim_space incoming.id_header) "" given) refl

-- At most one event was logged, and its detail begins with the id that the response has in its header
-- `X-Request-Id`; the id is not empty, and is the trimmed header of the request where that is not.
abbrev pub IsTraced :
    {B A P M : Type 0} → Incoming B → World A P M → Outgoing × World A P M → Type 0
IsTraced incoming w (out, w') =
    Carries out.id_header w.audited w'.audited
    × (out.id_header ≢ "")
    × (trim_space incoming.id_header ≢ "" → out.id_header ≡ trim_space incoming.id_header)

-- Where the random source, if it does not fail, gives at least one byte: a request to the server that
-- `New` makes logs at most one event, and the detail of that event begins with the id that the
-- response has in its header `X-Request-Id`; this id is not empty, and it is the trimmed header of
-- the request where that is not empty.
pub handler-IsTraced :
    {B A P M : Type 0} (env : Environment B) (cfg : HttpConfig) (deps : Deps A P M)
    (incoming : Incoming B) (w : World A P M)
    → ((bytes : List ℕ) → incoming.id_bytes ≡ some bytes → 0 < length bytes)
    → IsTraced incoming w ((new env cfg deps).handler incoming w)
unfolding new logging_middleware
handler-IsTraced env cfg deps incoming w filled = (
  serve-Carries env deps (record incoming.request { request_id = request_id_of incoming }) w,
  request_id_of-ne-empty incoming filled,
  request_id_of-given incoming,
)

-- ===== src/Http/Middleware.antt =====
-- `New` and `loggingMiddleware` of internal/httpserver/server.go: the id of a request.
use Prim.Native.String
use modern_mcs.Prelude.{ℕ, String, List, Option, none, some, ℤ, pos, ◌==◌, if◌then◌else◌}
use modern_mcs.Text.{trim_space}
use modern_mcs.Text.Hex.{encode_to_string}
use modern_mcs.Text.Decimal.{decimal}
use modern_mcs.Config.Defs.{HttpConfig}
use modern_mcs.Config.Number.{seconds}
use modern_mcs.Http.Types.{Deps, World, Request, Response, Environment}
use modern_mcs.Http.Routes.{serve}

-- A request as it comes in: its header `X-Request-Id`, and what the random source and the clock
-- answer if it has none. The field `request_id` of the request is the value in its context.
pub record Incoming (B : Type 0) : Type 0 where
  pub request : Request B
  pub id_header : String
  pub id_bytes : Option (List ℕ)
  pub unix_nano : ℕ

-- A response with its header `X-Request-Id`.
pub record Outgoing : Type 0 where
  pub response : Response
  pub id_header : String

unfoldable pub new_request_id : Option (List ℕ) → ℕ → String
new_request_id none unix_nano = String.◌++◌ "req-" (decimal unix_nano)
new_request_id (some b) unix_nano = encode_to_string b

unfoldable pub request_id_of : {B : Type 0} → Incoming B → String
unfolding new_request_id
request_id_of incoming =
    let given = trim_space incoming.id_header in
    if given == "" then new_request_id incoming.id_bytes incoming.unix_nano else given

-- `loggingMiddleware`; the status that it records is not read.
unfoldable pub logging_middleware :
    {B W : Type 0} → (Request B → W → Response × W) → Incoming B → W → Outgoing × W
unfolding request_id_of
logging_middleware next incoming w =
    let id = request_id_of incoming in
    let (response, w') = next (record incoming.request { request_id = id }) w in
    (record { response = response; id_header = id }, w')

-- What `New` gives to `http.Server`.
pub record HttpServer (B W : Type 0) : Type 0 where
  pub addr : String
  pub handler : Incoming B → W → Outgoing × W
  pub read_timeout : ℤ
  pub write_timeout : ℤ
  pub idle_timeout : ℤ

unfoldable pub new :
    {B A P M : Type 0} → Environment B → HttpConfig → Deps A P M → HttpServer B (World A P M)
unfolding logging_middleware
new env cfg deps = record {
  addr = cfg.addr;
  handler = logging_middleware (serve env deps);
  read_timeout = cfg.read_timeout;
  write_timeout = cfg.write_timeout;
  idle_timeout = seconds (pos 60);
}

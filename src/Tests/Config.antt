-- ===== src/Tests/Config.antt =====
-- Instances of the theorems on the configuration.
use modern_mcs.Prelude.{◌≡◌, refl, none, some, ok, pos, ◌==◌, if◌then◌else◌, arith}
use modern_mcs.Config.Number.{atoi, digits, digits_from}
use modern_mcs.Config.Defs.{Environment, get_env_int, read_config, load}
use modern_mcs.Config.Laws.{load_wrapped}

-- A time to live whose product with a second is 2 ^ 64 nanoseconds and 290448384 more.
abbrev long_ttl : Environment
long_ttl key = if key == "AUTH_SESSION_TTL_SEC" then some "18446744074" else none

asked : get_env_int long_ttl "AUTH_SESSION_TTL_SEC" (pos 3600) ≡ pos 18446744074
unfolding get_env_int atoi digits digits_from
asked = refl

load_wrapped_example :
    (load long_ttl ≡ ok (read_config long_ttl))
    × ((read_config long_ttl).auth.session_ttl ≡ pos 290448384)
load_wrapped_example =
    load_wrapped long_ttl 290448384 1 18446744074 asked (omega arith) (omega arith) (omega arith)

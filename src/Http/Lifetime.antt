-- ===== src/Http/Lifetime.antt =====
-- A session over HTTP: the login, the requests that carry its token, and the logout.
use Prim.Native.String
use Prim.Native.String.{[], ◌∷◌}
use Prim.Native.String.append
use text.Mathlib.TextLemmas.{append_assoc}
use modern_mcs.Prelude.{
  ℕ, ◌+◌, ◌<◌, String, ◌≡◌, ◌≢◌, refl, ap, subst, ◌∙◌, inl, inr, arith, List, All, some, ok, err,
  Option-cases, Bool-cases, leb, if◌then◌else◌, eq_refl,
}
use modern_mcs.Text.{trim_space, contains_char}
use modern_mcs.Text.Trim.{trim_space-fixed}
use modern_mcs.Text.Hex.{encode_to_string, encode_to_string-HasNoSpace, encode_to_string-ne-empty}
use modern_mcs.Auth.Types.{Session, invalid_token}
use modern_mcs.Auth.State.{Platform, Randomness, generate_token}
use modern_mcs.Auth.Service.{login, validate_token, logout}
use modern_mcs.Auth.State as auth
use modern_mcs.Auth.Service.Run.{IsFilled}
use modern_mcs.Auth.Service.Login.{login-IsLogin}
use modern_mcs.Auth.Service.Tokens.{logout_lem}
use modern_mcs.Auth.Service.Lifetime.{validate_token-login, validate_token-login_late}
use modern_mcs.Http.Types.{Credentials, Deps, World, Request, me, Environment}
use modern_mcs.Http.Guard.{extract_bearer_token, write_error}
use modern_mcs.Http.Header.{extract_bearer_token_iff}
use modern_mcs.Http.Sessions.{handle_login, login_body, user_payload, handle_me, handle_logout}
use modern_mcs.Http.Routes.{serve, handle, route_of}
use modern_mcs.Http.Answers.{handle_login_ok, handle_me_cases, handle_logout_auth}
use modern_mcs.Http.Wiring.{auth_service}

-- The header that a client sends with a token.
abbrev pub bearer : String → String
bearer token = String.◌++◌ "Bearer " token

bearer-split : (token : String) → bearer token ≡ String.◌++◌ "Bearer" (" " ∷ token)
bearer-split token =
    append_assoc "Bearer" " " token
    ∙ ap (λ t. String.◌++◌ "Bearer" t)
        (append.cons " " "" token ∙ ap (λ t. " " ∷ t) (append.nil token))

-- A token without space is taken from its header as it is.
pub extract_bearer_token-bearer :
    (token : String)
    → trim_space token ≡ token
    → token ≢ ""
    → extract_bearer_token (bearer token) ≡ some token
unfolding contains_char
extract_bearer_token-bearer token trimmed named =
    (extract_bearer_token_iff (bearer token) token).1
      ("Bearer", " ", token, refl, bearer-split token, refl, refl, trimmed, named)

-- The random source fills the buffers, with bytes.
abbrev pub IsRandom : Randomness → Type 0
IsRandom random =
    IsFilled random × ((b : List ℕ) → random.for_token ≡ some b → All (λ x. x < 256) b)

generate_token-is_plain :
    (random : Randomness) (token : String)
    → IsRandom random
    → generate_token 32 random.for_token ≡ ok token
    → (trim_space token ≡ token) × (token ≢ "")
unfolding generate_token
generate_token-is_plain random token (filled, in_range) made =
    elim (Option-cases random.for_token) [
      | inl nothing ↦ let bad = rw nothing at made in cc
      | inr (b, read) ↦
          let same : encode_to_string b ≡ token = ground (arith, rw read at made) in
          (
            subst (λ t. trim_space t ≡ t) same
                (trim_space-fixed _ (encode_to_string-HasNoSpace b (in_range b read))),
            subst (λ t. t ≢ "") same (encode_to_string-ne-empty b (omega (arith, filled b read))),
          )
    ]

module _ {U T B C P M : Type 0} (p : Platform U T B) (env : Environment C)
    (deps : Deps (auth.Service U T B) P M) (over : deps.auth ≡ some (auth_service p)) where
  serve_at :
      (r : Request C) (w : World (auth.Service U T B) P M) (path : String)
      → r.path ≡ path
      → serve env deps r w ≡ handle env deps (route_of path) r w
  unfolding serve
  serve_at r w path h = ap (λ t. handle env deps (route_of t) r w) h

  -- Where the random source fills its buffers with bytes, a login request with a name and a password
  -- that are not empty and that the auth service accepts is answered with the session; and the next
  -- request, if it asks for `/v1/auth/me` with the session's token, is answered with the session's
  -- user if it is served before the time to live has passed, or just when it has, and with 401 if it
  -- is served later.
  pub serve-login-me :
      (r : Request C) (w : World (auth.Service U T B) P M) (c : Credentials)
      → r.method ≡ "POST"
      → r.path ≡ "/v1/auth/login"
      → env.decode_credentials r.body ≡ some c
      → c.username ≢ ""
      → c.password ≢ ""
      → IsRandom r.randomness
      → (sess : Session) → (login p r.acts_at r.randomness c.username c.password w.auth).0 ≡ ok sess
      → (r' : Request C) → r'.method ≡ "GET"
      → r'.path ≡ "/v1/auth/me"
      → r'.authorization ≡ bearer sess.token
      → ((serve env deps r w).0 ≡ record { status = 200; body = login_body env sess })
        × ((serve env deps r' (serve env deps r w).1).0 ≡ (
            if leb r'.validated_at (r.acts_at + w.auth.ttl)
            then record { status = 200; body = me (user_payload env sess) }
            else write_error 401 "invalid token"))
  unfolding handle route_of
  serve-login-me r w c post at_login decoded named given random sess entered r' get at_me carries =
      let first : serve env deps r w ≡ handle_login env deps r w =
        serve_at r w "/v1/auth/login" at_login in
      let second : (w' : World (auth.Service U T B) P M)
          → serve env deps r' w' ≡ handle_me env deps r' w' =
        λ w'. serve_at r' w' "/v1/auth/me" at_me in
      let (answer, state) =
        handle_login_ok p env deps over r w c post decoded named given sess entered in
      let plain =
        generate_token-is_plain r.randomness sess.token random
          (login-IsLogin p r.acts_at r.randomness c.username c.password w.auth sess
            entered).0.token in
      let token_of : extract_bearer_token r'.authorization ≡ some sess.token =
        rw carries (extract_bearer_token-bearer sess.token plain.0 plain.1) in
      let entered_state : (serve env deps r w).1.auth
          ≡ (login p r.acts_at r.randomness c.username c.password w.auth).1 =
        rw first state in
      let (refuses, answers) =
        handle_me_cases p env deps over r' (serve env deps r w).1 sess.token get token_of in
      (
        rw first answer,
        elim (Bool-cases (leb r'.validated_at (r.acts_at + w.auth.ttl))) [
          | inl live ↦
              rw (second, live)
                (answers sess (
                  rw entered_state (
                    (validate_token-login p r.acts_at r.randomness c.username c.password w.auth sess
                        entered r'.validated_at).1
                      (ground arith))))
          | inr late ↦
              rw (second, late)
                (refuses invalid_token (
                  rw entered_state (
                    validate_token-login_late p r.acts_at r.randomness c.username c.password w.auth
                      sess entered r'.validated_at (ground arith))))
        ],
      )

  validate_token-after_logout :
      (token : String) (s : auth.Service U T B) (later : ℕ)
      → (validate_token p later token (logout p token s).1).0 ≡ err invalid_token
  unfolding validate_token
  validate_token-after_logout token s later = rw (logout_lem, validate_token) (rw eq_refl)

  -- After a logout request with a token, whatever its answer was, the next request, if it asks for
  -- `/v1/auth/me` with the same token, is answered with 401.
  pub serve-logout-me :
      (r : Request C) (w : World (auth.Service U T B) P M) (token : String)
      → r.method ≡ "POST"
      → r.path ≡ "/v1/auth/logout"
      → extract_bearer_token r.authorization ≡ some token
      → (r' : Request C) → r'.method ≡ "GET"
      → r'.path ≡ "/v1/auth/me"
      → extract_bearer_token r'.authorization ≡ some token
      → (serve env deps r' (serve env deps r w).1).0 ≡ write_error 401 "invalid token"
  unfolding handle route_of
  serve-logout-me r w token post at_logout given r' get at_me given' =
      let first : serve env deps r w ≡ handle_logout env deps r w =
        serve_at r w "/v1/auth/logout" at_logout in
      let second : (w' : World (auth.Service U T B) P M)
          → serve env deps r' w' ≡ handle_me env deps r' w' =
        λ w'. serve_at r' w' "/v1/auth/me" at_me in
      let left : (serve env deps r w).1.auth
          ≡ (logout p token (validate_token p r.validated_at token w.auth).1).1 =
        rw first (handle_logout_auth p env deps over r w token post given) in
      rw second (
        (handle_me_cases p env deps over r' (serve env deps r w).1 token get given').0 invalid_token
          (rw left (
            validate_token-after_logout token (validate_token p r.validated_at token w.auth).1
              r'.validated_at)))

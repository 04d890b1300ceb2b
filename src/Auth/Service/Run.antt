-- ===== src/Auth/Service/Run.antt =====
-- Histories of calls: what holds of the sessions whatever the clients do.
use modern_mcs.Prelude.{
  ℕ, String, ◌≡◌, sym, subst, ◌≢◌, ◌⊎◌, inl, inr, not, arith, List, [], none, some, All, length, ok,
  ◌==◌, eq_iff, Option-cases, Result-cases, Bool-cases,
}
use modern_mcs.Prelude.{◌∷◌ as cons}
use modern_mcs.Dict.{Dict, lookup, insert, erase, keep, find_key}
use modern_mcs.Dict.Laws.{
  HasDistinctKeys, lookup-insert, lookup-erase, lookup-keep, insert-HasDistinctKeys,
  erase-HasDistinctKeys, keep-HasDistinctKeys,
}
use modern_mcs.Text.Hex.{encode_to_string-ne-empty}
use modern_mcs.Auth.Types.{User, Session}
use modern_mcs.Auth.State.{Platform, Service, Randomness, generate_token, is_expired}
use modern_mcs.Auth.Service.{
  open_session, new_session, login, validate_token, logout, revoke_token, revoke_session_by_id,
  list_sessions, change_password, replace_password,
}
use modern_mcs.Auth.Service.Login.{login_cases, open_session_ok, open_session_err}
use modern_mcs.Auth.Service.Tokens.{sessions-delete_token, sessions-drop_token}
use modern_mcs.Auth.Service.Listing.{sessions-list_sessions}
use modern_mcs.Auth.Service.Password.{change_password_cases}

-- A session stands under its own token, which is not empty, and no token stands twice.
pub record IsSessionMap (d : Dict Session) : Type 0 where
  pub distinct : HasDistinctKeys d
  pub keyed : (t : String) (sess : Session) → lookup t d ≡ some sess → sess.token ≡ t
  pub named : lookup "" d ≡ none

insert-IsSessionMap :
    (sess : Session) (d : Dict Session)
    → sess.token ≢ ""
    → IsSessionMap d
    → IsSessionMap (insert sess.token sess d)
insert-IsSessionMap sess d named m = record {
  distinct = insert-HasDistinctKeys sess.token sess d m.distinct;
  keyed =
      λ t x h. ground (arith, lookup-insert sess.token t sess d, eq_iff sess.token t, m.keyed t x);
  named = ground (arith, lookup-insert sess.token "" sess d, eq_iff sess.token "", m.named);
}

erase-IsSessionMap : (k : String) (d : Dict Session) → IsSessionMap d → IsSessionMap (erase k d)
erase-IsSessionMap k d m = record {
  distinct = erase-HasDistinctKeys k d m.distinct;
  keyed = λ t x h. ground (arith, lookup-erase k t d, m.keyed t x);
  named = ground (arith, lookup-erase k "" d, m.named);
}

keep-IsSessionMap :
    (now : ℕ) (d : Dict Session)
    → IsSessionMap d
    → IsSessionMap (keep (λ sess. not (is_expired now sess)) d)
keep-IsSessionMap now d m = record {
  distinct = keep-HasDistinctKeys (λ sess. not (is_expired now sess)) d m.distinct;
  keyed = λ t x h.
      ground (arith, lookup-keep (λ sess. not (is_expired now sess)) t d m.distinct, m.keyed t x);
  named = ground (arith, lookup-keep (λ sess. not (is_expired now sess)) "" d m.distinct, m.named);
}

-- `rand.Read` fills the buffer that it is given.
abbrev pub IsFilled : Randomness → Type 0
IsFilled random = (b : List ℕ) → random.for_token ≡ some b → length b ≡ 32

token-ne-empty :
    (random : Randomness) (token : String)
    → IsFilled random
    → generate_token 32 random.for_token ≡ ok token
    → token ≢ ""
unfolding generate_token
token-ne-empty random token filled made = elim (Option-cases random.for_token) [
  | inl nothing ↦ let bad = rw nothing at made in λ e. cc
  | inr (b, read) ↦
      let got = rw read at made in
      λ e. encode_to_string-ne-empty b (omega (arith, filled b read)) (ground arith)
]

-- The calls that the HTTP handlers make.
pub data Call : Type 0 where
  logs_in : ℕ → Randomness → String → String → Call
  validates : ℕ → String → Call
  logs_out : String → Call
  revokes : String → Call
  revokes_id : String → Call
  lists : ℕ → Call
  changes_password : ℕ → String → String → String → Call

-- Where a call brings randomness, it is as `rand.Read` gives it.
abbrev pub IsFair : Call → Type 0
IsFair (logs_in now random username password) = IsFilled random
IsFair _ = Unit

-- The sessions are what they were, or have lost one token.
abbrev pub LosesOne : Dict Session → Dict Session → Type 0
LosesOne d d' = (d' ≡ d) ⊎ ((t : String) × (d' ≡ erase t d))

module _ {U T B : Type 0} (p : Platform U T B) where
  unfoldable pub step : Service U T B → Call → Service U T B
  step s (logs_in now random username password) = (login p now random username password s).1
  step s (validates now token) = (validate_token p now token s).1
  step s (logs_out token) = (logout p token s).1
  step s (revokes token) = (revoke_token p token s).1
  step s (revokes_id id) = (revoke_session_by_id p id s).1
  step s (lists now) = (list_sessions p now s).1
  step s (changes_password now token current new) = (change_password p now token current new s).1

  unfoldable pub run : Service U T B → List Call → Service U T B
  run s [] = s
  run s (cons c cs) = run (step s c) cs

  loses-IsSessionMap : {d d' : Dict Session} → LosesOne d d' → IsSessionMap d → IsSessionMap d'
  loses-IsSessionMap (inl e) m = subst IsSessionMap (sym e) m
  loses-IsSessionMap (inr (t, e)) m = subst IsSessionMap (sym e) (erase-IsSessionMap t _ m)

  module _ (s : Service U T B) where
    pub validate_token-loses :
        (now : ℕ) (token : String) → LosesOne s.sessions (validate_token p now token s).1.sessions
    unfolding validate_token
    validate_token-loses now token = elim (Option-cases (lookup token s.sessions)) [
      | inl absent ↦ inl (rw (absent, validate_token))
      | inr (sess, found) ↦ elim (Bool-cases (is_expired now sess)) [
        | inl old ↦ inr (
          token,
          rw (found, validate_token) (rw (old, validate_token) (sessions-drop_token p s token)),
        )
        | inr live ↦ inl (rw (found, validate_token) (rw live))
      ]
    ]

    pub logout-loses : (token : String) → LosesOne s.sessions (logout p token s).1.sessions
    unfolding logout
    logout-loses token = elim (Option-cases (lookup token s.sessions)) [
      | inl absent ↦ inl (rw (absent, logout))
      | inr (sess, found) ↦ inr (token, rw (found, logout) (sessions-delete_token p s token))
    ]

    pub revoke_token-loses :
        (token : String) → LosesOne s.sessions (revoke_token p token s).1.sessions
    unfolding revoke_token
    revoke_token-loses token = elim (Option-cases (lookup token s.sessions)) [
      | inl absent ↦ inl (rw (absent, revoke_token))
      | inr (sess, found) ↦ inr (token, rw (found, revoke_token) (sessions-delete_token p s token))
    ]

    pub revoke_session_by_id-loses :
        (id : String) → LosesOne s.sessions (revoke_session_by_id p id s).1.sessions
    unfolding revoke_session_by_id
    revoke_session_by_id-loses id =
        elim (Option-cases (find_key (λ sess. sess.id == id) s.sessions)) [
          | inl absent ↦ inl (rw (absent, revoke_session_by_id))
          | inr (token, found) ↦ elim (Bool-cases (token == "")) [
            | inl empty ↦ inl (rw (found, revoke_session_by_id) (rw empty))
            | inr named ↦ inr (
              token,
              rw (found, revoke_session_by_id)
                  (rw (named, revoke_session_by_id) (sessions-delete_token p s token)),
            )
          ]
        ]

    sessions-replace_password :
        (user : User) (current new : String)
        → (replace_password p user current new s).1.sessions ≡ s.sessions
    unfolding replace_password
    sessions-replace_password user current new = ground arith

    pub change_password-loses :
        (now : ℕ) (token current new : String)
        → LosesOne s.sessions (change_password p now token current new s).1.sessions
    change_password-loses now token current new =
        elim (change_password_cases p now token current new s) [
          | inl (e, refused) ↦ rw refused (validate_token-loses now token)
          | inr (inl (e, refused)) ↦ inl (rw refused)
          | inr (inr (strong, session, valid, user, known, goes_on)) ↦
              inl (rw goes_on (sessions-replace_password user current new))
        ]

    module _ (m : IsSessionMap s.sessions) where
      open_session-IsSessionMap :
          (sess : Session) → sess.token ≢ "" → IsSessionMap (open_session p sess s).1.sessions
      open_session-IsSessionMap sess named =
          let inserted = insert-IsSessionMap sess s.sessions named m in
          elim (Result-cases (open_session p sess s).0) [
            | inl (got, h) ↦ rw ((open_session_ok p sess s got h).1) inserted
            | inr (e, h) ↦
                rw (open_session_err p sess s e h) (erase-IsSessionMap sess.token _ inserted)
          ]

      login-IsSessionMap :
          (now : ℕ) (random : Randomness) (username password : String)
          → IsFilled random
          → IsSessionMap (login p now random username password s).1.sessions
      unfolding new_session
      login-IsSessionMap now random username password filled =
          elim (login_cases p now random username password s) [
            | inl (e, refused) ↦ rw refused m
            | inr (u, known, verified, token, made, opens) ↦ rw opens (
                open_session-IsSessionMap (new_session p now random token u s)
                  (token-ne-empty random token filled made))
          ]

      -- Every call keeps the sessions a map from their own tokens.
      pub step-IsSessionMap : (c : Call) → IsFair c → IsSessionMap (step s c).sessions
      unfolding step
      step-IsSessionMap (logs_in now random username password) fair =
          login-IsSessionMap now random username password fair
      step-IsSessionMap (validates now token) fair =
          loses-IsSessionMap (validate_token-loses now token) m
      step-IsSessionMap (logs_out token) fair = loses-IsSessionMap (logout-loses token) m
      step-IsSessionMap (revokes token) fair = loses-IsSessionMap (revoke_token-loses token) m
      step-IsSessionMap (revokes_id id) fair = loses-IsSessionMap (revoke_session_by_id-loses id) m
      step-IsSessionMap (lists now) fair =
          rw sessions-list_sessions (keep-IsSessionMap now s.sessions m)
      step-IsSessionMap (changes_password now token current new) fair =
          loses-IsSessionMap (change_password-loses now token current new) m

  -- After any history of calls whose random bytes are 32 where they are a token's, the sessions are a
  -- map from their own tokens, which are not empty, if they were one before.
  pub run-IsSessionMap :
      (s : Service U T B) (cs : List Call)
      → IsSessionMap s.sessions
      → All IsFair cs
      → IsSessionMap (run s cs).sessions
  unfolding run
  run-IsSessionMap s [] m fair = m
  run-IsSessionMap s (cons c cs) m (h, fair) =
      run-IsSessionMap (step s c) cs (step-IsSessionMap s m c h) fair

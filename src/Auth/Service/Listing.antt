-- ===== src/Auth/Service/Listing.antt =====
-- What `ListSessions`, `ListSessionViews` and `RevokeSessionByID` do.
use mathlib.Core.List.{Memᴰ}
use modern_mcs.Prelude.{
  ℕ, ◌≤◌, String, ◌≡◌, refl, ◌⊎◌, ◌↔◌, inl, inr, Bool, false, not, arith, none, some, map, err,
  ◌==◌, eq_iff, Option-cases, if◌then◌else◌,
}
use modern_mcs.Dict.{lookup, keep, find_key}
use modern_mcs.Dict.Laws.{
  lookup-erase, HasDistinctKeys, find_key_sound, find_key-none, lookup-keep, filter_option,
  mem-values, lookup_of_mem, keep-HasDistinctKeys,
}
use modern_mcs.Auth.Types.{Session, invalid_token}
use modern_mcs.Auth.State.{Platform, Service, is_expired, view_of}
use modern_mcs.Auth.Service.{list_sessions, list_session_views, revoke_session_by_id}
use modern_mcs.Auth.Service.Frame.{persist-SameCore}
use modern_mcs.Auth.Service.Tokens.{sessions-delete_token}

module _ {U T B : Type 0} (p : Platform U T B) (s : Service U T B) where
  abbrev is_live : ℕ → Session → Bool
  is_live now sess = not (is_expired now sess)

  pub sessions-list_sessions :
      (now : ℕ) → (list_sessions p now s).1.sessions ≡ keep (is_live now) s.sessions
  unfolding list_sessions
  sessions-list_sessions now =
      ground (arith, persist-SameCore p (record s { sessions = keep (is_live now) s.sessions }))

  module _ (distinct : HasDistinctKeys s.sessions) (now : ℕ) where
    -- Where no token stands twice, listing takes away exactly the sessions that have expired.
    pub lookup-list_sessions :
        (t : String)
        → lookup t (list_sessions p now s).1.sessions
          ≡ filter_option (λ sess. not (is_expired now sess)) (lookup t s.sessions)
    lookup-list_sessions t =
        rw sessions-list_sessions (lookup-keep (is_live now) t s.sessions distinct)

    -- Where no token stands twice, the list has exactly the sessions of some token that have not
    -- expired.
    mem-list_sessions :
        (sess : Session)
        → Memᴰ sess (list_sessions p now s).0
          ↔ ((t : String) × (lookup t s.sessions ≡ some sess) × (now ≤ sess.expires_at))
    unfolding list_sessions is_expired
    mem-list_sessions sess = (
      λ m.
          let (t, found) =
            lookup_of_mem sess (keep (is_live now) s.sessions)
              (keep-HasDistinctKeys (is_live now) s.sessions distinct) m in
          (
            t,
            ground (arith, lookup-keep (is_live now) t s.sessions distinct, found),
            ground (arith, lookup-keep (is_live now) t s.sessions distinct, found),
          ),
      λ (t, found, live).
          mem-values t sess (keep (is_live now) s.sessions)
            (ground (arith, lookup-keep (is_live now) t s.sessions distinct, found, live)),
    )

  -- The views list the same sessions, without their tokens.
  pub list_session_views_lem :
      (now : ℕ)
      → list_session_views p now s
        ≡ (map view_of (list_sessions p now s).0, (list_sessions p now s).1)
  unfolding list_session_views
  list_session_views_lem now = refl

  -- Where no token stands twice and none is empty, revoking an id takes away one token whose session has that id, and is `ErrInvalidToken` with
  -- no change where no session has it.
  pub revoke_session_by_id_lem :
      (session_id : String)
      → HasDistinctKeys s.sessions
      → lookup "" s.sessions ≡ none
      → ((revoke_session_by_id p session_id s ≡ (err invalid_token, s))
          × ((t : String) (sess : Session)
              → lookup t s.sessions ≡ some sess
              → (sess.id == session_id) ≡ false))
        ⊎ ((token : String) × (sess : Session) × (lookup token s.sessions ≡ some sess)
            × (sess.id ≡ session_id)
            × ((t : String)
                → lookup t (revoke_session_by_id p session_id s).1.sessions
                  ≡ (if token == t then none else lookup t s.sessions)))
  unfolding revoke_session_by_id
  revoke_session_by_id_lem session_id distinct named =
      elim (Option-cases (find_key (λ sess. sess.id == session_id) s.sessions)) [
        | inl missing ↦ inl (
          rw (missing, revoke_session_by_id),
          λ t sess found. find_key-none (λ x. x.id == session_id) s.sessions t sess missing found,
        )
        | inr (token, at) ↦
            let (sess, found, same) =
              find_key_sound (λ x. x.id == session_id) s.sessions token distinct at in
            inr (
              token,
              sess,
              found,
              (eq_iff sess.id session_id).0 same,
              λ t.
                  rw (at, revoke_session_by_id)
                    (ground (
                      arith,
                      eq_iff token "",
                      eq_iff token t,
                      sessions-delete_token p s token,
                      lookup-erase token t s.sessions,
                      found,
                      named,
                    )),
            )
      ]

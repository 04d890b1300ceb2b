-- ===== src/Auth/Service/Password.antt =====
-- What `ChangePassword` establishes.
use modern_mcs.Prelude.{ℕ, String, ◌≡◌, ap, ◌∙◌, ◌⊎◌, inl, inr, true, arith, ok, err, Result-cases}
use modern_mcs.Auth.Types.{User, Session, Error, Outcome, weak_password, invalid_credentials}
use modern_mcs.Auth.Policy.{validate_password_policy}
use modern_mcs.Auth.Policy.Laws.{IsStrong, validate_password_policy_iff}
use modern_mcs.Auth.State.{Platform, Service}
use modern_mcs.Auth.Service.{
  validate_token, replace_password, change_password, verify_password, hash_password,
}

module _ {U T B : Type 0} (p : Platform U T B) where
  module _ (now : ℕ) (token current new : String) (s : Service U T B) where
    -- The facts behind a password that was changed.
    pub record IsChange : Type 0 where
      pub strong : IsStrong p.tables new
      pub session : Session
      pub valid : (validate_token p now token s).0 ≡ ok session
      pub user : User
      pub known : p.users.get_by_username s.users session.username ≡ ok user
      pub verified : verify_password p s.pepper current user.password_hash ≡ true
      pub stored :
          (p.users.put s.users (record user { password_hash = hash_password p s.pepper new })).0
          ≡ ok tt
      pub result : change_password p now token current new s ≡ (
        ok tt,
        record s {
          users =
              (p.users.put s.users
                (record user { password_hash = hash_password p s.pepper new })).1;
        },
      )

    validate_token_ok :
        (session : Session)
        → (validate_token p now token s).0 ≡ ok session
        → validate_token p now token s ≡ (ok session, s)
    unfolding validate_token
    validate_token_ok session h = ground arith

    -- What `replace_password` does where it succeeds.
    replace_password_ok :
        (user : User)
        → (replace_password p user current new s).0 ≡ ok tt
        → (verify_password p s.pepper current user.password_hash ≡ true)
          × ((p.users.put s.users (record user { password_hash = hash_password p s.pepper new })).0
              ≡ ok tt)
          × (replace_password p user current new s ≡ (
            ok tt,
            record s {
              users =
                  (p.users.put s.users
                    (record user { password_hash = hash_password p s.pepper new })).1;
            },
          ))
    unfolding replace_password
    replace_password_ok user h = ground arith

    -- `change_password` refuses, and at most drops an expired session, or goes on to replace the
    -- password of the session's user.
    pub change_password_cases :
        ((e : Error) × (change_password p now token current new s
            ≡ (err e, (validate_token p now token s).1)))
        ⊎ ((e : Error) × (change_password p now token current new s ≡ (err e, s)))
        ⊎ (IsStrong p.tables new
            × (session : Session) × ((validate_token p now token s).0 ≡ ok session)
            × (user : User) × (p.users.get_by_username s.users session.username ≡ ok user)
            × (change_password p now token current new s ≡ replace_password p user current new s))
    unfolding change_password
    change_password_cases = elim (Result-cases (validate_password_policy p.tables new)) [
      | inr (e, weak) ↦ inr (inl (weak_password, rw (weak, change_password)))
      | inl (_, accepted) ↦ elim (Result-cases (validate_token p now token s).0) [
        | inr (e, refused) ↦ inl (e, rw (accepted, change_password) (rw (refused, change_password)))
        | inl (session, valid) ↦
            let same =
              ap (λ (x : Outcome (Service U T B) Session). x.1) (validate_token_ok session valid) in
            elim (Result-cases (p.users.get_by_username s.users session.username)) [
              | inr (e, unknown) ↦ inr (
                  inl (
                    invalid_credentials,
                    rw (accepted, change_password)
                        (rw (valid, change_password)
                          (rw (same, change_password) (rw (unknown, change_password) (rw same)))),
                  ))
              | inl (user, known) ↦ inr (
                  inr (
                    (validate_password_policy_iff p.tables new).0 accepted,
                    session,
                    valid,
                    user,
                    known,
                    rw (accepted, change_password)
                        (rw (valid, change_password)
                          (rw (same, change_password)
                            (rw (known, change_password)
                              (ap (replace_password p user current new) same)))),
                  ))
            ]
      ]
    ]

    -- A change that succeeds had a strong new password, a token in force and the current password
    -- of the session's user; it stores the hash of the new password for that user and changes
    -- nothing else.
    pub change_password_ok : (change_password p now token current new s).0 ≡ ok tt → IsChange
    change_password_ok h = elim change_password_cases [
      | inl (e, refused) ↦ cc
      | inr (inl (e, refused)) ↦ cc
      | inr (inr (strong, session, valid, user, known, goes_on)) ↦
          let (verified, stored, result) = replace_password_ok user (rw goes_on at h) in
          record {
            strong = strong;
            session = session;
            valid = valid;
            user = user;
            known = known;
            verified = verified;
            stored = stored;
            result = goes_on ∙ result;
          }
    ]

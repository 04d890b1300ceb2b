-- ===== src/Http/Header.antt =====
-- What `hasRole` and `extractBearerToken` of internal/httpserver/server.go accept.
use Prim.Native.String
use Prim.Native.String.{[], ◌∷◌}
use Prim.Native.String.append
use mathlib.Core.List.{Memᴰ}
use modern_mcs.Prelude.{
  ℕ, Char, code, String, ◌≡◌, ◌≢◌, refl, ap, sym, subst, ◌∙◌, ◌↔◌, inl, inr, true, false, arith,
  List, some, Option, Option-cases, Bool-cases, ◌==◌, eq_iff, eqb,
}
use modern_mcs.Text.{trim_space, to_lower, equal_fold, contains_char, cut}
use modern_mcs.Http.Guard.{has_role, extract_bearer_token}

-- A role is held when one of the roles is the same up to letter case and surrounding space.
pub has_role_iff :
    (roles : List String) (role : String)
    → (has_role roles role ≡ true)
      ↔ ((r : String) × Memᴰ r roles × (to_lower (trim_space r) ≡ to_lower role))
unfolding has_role equal_fold
has_role_iff roles role = (to roles role, λ (r, m, same). from roles role r m same)
  where
    to :
        (roles : List String) (role : String)
        → has_role roles role ≡ true
        → (r : String) × Memᴰ r roles × (to_lower (trim_space r) ≡ to_lower role)
    to List.[] role h = let bad : ⊥ = ground (arith, h) in absurd bad
    to (List.◌∷◌ r rs) role h = elim (Bool-cases (to_lower (trim_space r) == to_lower role)) [
      | inl same ↦ (r, Memᴰ.head refl, (eq_iff _ _).0 same)
      | inr differs ↦ let (r', m, same) = to rs role (rw differs at h) in (r', Memᴰ.tail m, same)
    ]

    from :
        (roles : List String) (role r : String)
        → Memᴰ r roles
        → to_lower (trim_space r) ≡ to_lower role
        → has_role roles role ≡ true
    from List.[] role r m same = elim m [ ]
    from (List.◌∷◌ q qs) role r (Memᴰ.head at) same =
        ground (arith, eq_iff (to_lower (trim_space q)) (to_lower role), at, same)
    from (List.◌∷◌ q qs) role r (Memᴰ.tail m) same = ground (arith, from qs role r m same)

pub cut_of :
    (s a b : String) (k : ℕ)
    → cut s k ≡ some (a, b)
    → (c : Char) × (code c ≡ k) × (s ≡ String.◌++◌ a (c ∷ b)) × (contains_char a k ≡ false)
unfolding cut contains_char
cut_of [] a b k h = let bad : ⊥ = ground (arith, h) in absurd bad
cut_of (c ∷ s) a b k h = elim (Bool-cases (eqb (code c) k)) [
  | inl here ↦ cut_here c s a b k here (rw here at h)
  | inr later ↦ elim (Option-cases (cut s k)) [
    | inl absent ↦ let bad = rw (later, absent) at h in cc
    | inr ((a', b'), found) ↦
        cut_later c s a b a' b' k later (cut_of s a' b' k found) (rw (later, found) at h)
  ]
]
  where
    cut_here :
        (c : Char) (s a b : String) (k : ℕ)
        → eqb (code c) k ≡ true
        → ◌≡◌ {A = Option (String × String)} (some ([], s)) (some (a, b))
        → (c' : Char) × (code c' ≡ k)
          × (c ∷ s ≡ String.◌++◌ a (c' ∷ b))
          × (contains_char a k ≡ false)
    cut_here c s a b k here h =
        let front : [] ≡ a = ground (arith, h) in
        let back : s ≡ b = ground (arith, h) in
        (
          c,
          ground arith,
          sym (rw (sym front) (append.nil (c ∷ b)) ∙ ap (λ t. c ∷ t) (sym back)),
          rw (sym front) refl,
        )

    cut_later :
        (c : Char) (s a b a' b' : String) (k : ℕ)
        → eqb (code c) k ≡ false
        → (c' : Char) × (code c' ≡ k)
          × (s ≡ String.◌++◌ a' (c' ∷ b'))
          × (contains_char a' k ≡ false)
        → ◌≡◌ {A = Option (String × String)} (some (c ∷ a', b')) (some (a, b))
        → (c' : Char) × (code c' ≡ k)
          × (c ∷ s ≡ String.◌++◌ a (c' ∷ b))
          × (contains_char a k ≡ false)
    cut_later c s a b a' b' k later (c', at, same, none_before) h =
        let front : c ∷ a' ≡ a = ground (arith, h) in
        let back : b' ≡ b = ground (arith, h) in
        (
          c',
          at,
          ap (λ t. c ∷ t) (same ∙ ap (λ t. String.◌++◌ a' (c' ∷ t)) back)
              ∙ sym (append.cons c a' (c' ∷ b))
              ∙ ap (λ t. String.◌++◌ t (c' ∷ b)) front,
          rw (sym front) (ground arith),
        )

pub cut-append :
    (a b : String) (c : Char)
    → contains_char a (code c) ≡ false
    → cut (String.◌++◌ a (c ∷ b)) (code c) ≡ some (a, b)
unfolding cut contains_char
cut-append [] b c h = rw append.nil (ground arith)
cut-append (d ∷ a) b c h = rw append.cons (ground (arith, cut-append a b c))

-- A token is taken from a header when the header is `Bearer` in any case, one space, and a rest that
-- is not blank; the token is the rest without the space around it.
pub extract_bearer_token_iff :
    (header token : String)
    → (extract_bearer_token header ≡ some token) ↔ (
        (scheme : String) × (c : Char) × (rest : String) × (code c ≡ b' ')
        × (header ≡ String.◌++◌ scheme (c ∷ rest))
        × (contains_char scheme b' ' ≡ false)
        × (to_lower scheme ≡ to_lower "Bearer")
        × (trim_space rest ≡ token)
        × (token ≢ ""))
unfolding extract_bearer_token equal_fold
extract_bearer_token_iff header token = (
  λ h. elim (Option-cases (cut header b' ')) [
    | inl no_space ↦ let bad = rw (no_space, extract_bearer_token) at h in cc
    | inr ((scheme, rest), split) ↦
        let (c, space, whole, first) = cut_of header scheme rest b' ' split in
        let h' = rw (split, extract_bearer_token) at h in
        (
          scheme,
          c,
          rest,
          space,
          whole,
          first,
          ground (arith, h', eq_iff (to_lower scheme) (to_lower "Bearer")),
          ground (arith, h'),
          λ e. ground (arith, h', e, eq_iff (trim_space rest) ""),
        )
  ],
  λ (scheme, c, rest, space, whole, first, bearer, trimmed, some_token).
      let split : cut header b' ' ≡ some (scheme, rest) = rw whole (
        subst (λ k. cut (String.◌++◌ scheme (c ∷ rest)) k ≡ some (scheme, rest)) space
          (cut-append scheme rest c (rw space first))) in
      rw (split, extract_bearer_token)
        (ground (
          arith,
          bearer,
          trimmed,
          some_token,
          eq_iff (to_lower scheme) (to_lower "Bearer"),
          eq_iff (trim_space rest) "",
        )),
)

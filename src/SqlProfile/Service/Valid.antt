-- ===== src/SqlProfile/Service/Valid.antt =====
-- What `validate` accepts, and that what is stored is accepted again.
use modern_mcs.Prelude.{
  ℕ, ◌≤◌, ◌<◌, String, ◌≡◌, ◌≢◌, ◌⊎◌, ◌↔◌, inl, inr, true, arith, ok, err, pos_part, eq_iff,
}
use modern_mcs.Text.{is_space, trim_space, to_lower}
use modern_mcs.Text.Trim.{trim_space_idem}
use modern_mcs.SqlProfile.Types.{Profile, Error, invalid_input}
use modern_mcs.SqlProfile.Service.{
  is_allowed_db_type, normal_db_type, validate, new_profile, merge_profile,
}

-- What a profile needs.
pub record IsValid (p : Profile) : Type 0 where
  pub name : trim_space p.name ≢ ""
  pub db_type :
      (normal_db_type p.db_type ≡ "mysql")
      ⊎ (normal_db_type p.db_type ≡ "mssql")
      ⊎ (normal_db_type p.db_type ≡ "pgsql")
  pub host : trim_space p.host ≢ ""
  pub port_positive : 0 < pos_part p.port
  pub port_bounded : pos_part p.port ≤ 65535
  pub database : trim_space p.database ≢ ""
  pub commands : trim_space p.commands ≢ ""

-- `validate` accepts exactly the profiles that have a name, a host, a database and commands that
-- are not blank, one of the three types up to case and spaces, and a port from 1 to 65535.
pub validate_iff : (p : Profile) → (validate p ≡ ok tt) ↔ IsValid p
unfolding validate
validate_iff p = (
  λ h. ground (
    arith,
    eq_iff (trim_space p.name) "",
    eq_iff (trim_space p.host) "",
    eq_iff (trim_space p.database) "",
    eq_iff (trim_space p.commands) "",
    eq_iff (normal_db_type p.db_type) "mysql",
    eq_iff (normal_db_type p.db_type) "mssql",
    eq_iff (normal_db_type p.db_type) "pgsql",
  ),
  λ h. ground (
    arith,
    eq_iff (trim_space p.name) "",
    eq_iff (trim_space p.host) "",
    eq_iff (trim_space p.database) "",
    eq_iff (trim_space p.commands) "",
    eq_iff (normal_db_type p.db_type) "mysql",
    eq_iff (normal_db_type p.db_type) "mssql",
    eq_iff (normal_db_type p.db_type) "pgsql",
    h.name,
    h.host,
    h.database,
    h.commands,
    h.db_type,
  ),
)

-- Every refusal is `ErrInvalidInput`.
pub validate_error :
    (p : Profile) (e : Error) → validate p ≡ err e → (why : String) × (e ≡ invalid_input why)
unfolding validate
validate_error p e h = ground arith

allowed_cases :
    (t : String) → is_allowed_db_type t ≡ true → (t ≡ "mysql") ⊎ (t ≡ "mssql") ⊎ (t ≡ "pgsql")
allowed_cases t h = ground (arith, eq_iff t "mysql", eq_iff t "mssql", eq_iff t "pgsql")

-- The allowed types are in normal form.
allowed-normal :
    (t : String) → is_allowed_db_type t ≡ true → is_allowed_db_type (normal_db_type t) ≡ true
unfolding trim_space to_lower is_space
allowed-normal t h = elim (allowed_cases t h) [
  | inl e ↦ rw e
  | inr (inl e) ↦ rw e
  | inr (inr e) ↦ rw e
]

-- What `Create` stores of a valid profile is valid.
pub validate-new_profile :
    (id : String) (now : ℕ) (p : Profile)
    → validate p ≡ ok tt
    → validate (new_profile id now p) ≡ ok tt
unfolding validate new_profile
validate-new_profile id now p h =
    ground (arith, trim_space_idem p.name, allowed-normal (normal_db_type p.db_type))

-- So is what `Update` stores of one.
pub validate-merge_profile :
    (now : ℕ) (p existing : Profile)
    → validate p ≡ ok tt
    → validate (merge_profile now p existing) ≡ ok tt
unfolding validate merge_profile
validate-merge_profile now p existing h =
    ground (arith, trim_space_idem p.name, allowed-normal (normal_db_type p.db_type))

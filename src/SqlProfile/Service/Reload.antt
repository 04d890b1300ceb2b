-- ===== src/SqlProfile/Service/Reload.antt =====
-- What a new service finds in the file that a write left, and what a list shows.
use mathlib.Core.List.{Perm, Memᴰ}
use modern_mcs.Prelude.{
  String, ◌≡◌, refl, ap, sym, subst, ◌∙◌, ◌≢◌, ◌⊎◌, inl, inr, false, arith, List, [], ◌∷◌, map,
  none, some, ok, Option-cases, Bool-cases, ◌==◌, eq_iff, eq_refl, ne→not-eq, if◌then◌else◌,
}
use modern_mcs.Text.{trim_space}
use modern_mcs.Dict.{Dict, lookup, insert, values}
use modern_mcs.Dict.Laws.{lookup-insert, HasDistinctKeys, mem-values, lookup_of_mem}
use modern_mcs.Disk.{Disk, bytes}
use modern_mcs.Codec.{Codec}
use modern_mcs.SqlProfile.Types.{Profile, clone, Outcome}
use modern_mcs.SqlProfile.Sort.{
  sort_by_created, sort_by_created-perm, IsSortedByCreated, sort_by_created-IsSortedByCreated,
  mem-sort_by_created_of, of_mem-sort_by_created,
}
use modern_mcs.SqlProfile.Service.{
  Service, add_profiles, persist_locked, list, load_state, new_service_with_file,
}

map-clone : (ps : List Profile) → map clone ps ≡ ps
map-clone [] = refl
map-clone (p ∷ ps) = ap (λ (qs : List Profile). p ∷ qs) (map-clone ps)

-- A list shows every profile once, the oldest first.
pub list_lem :
    {B : Type 0} (s : Service B) → IsSortedByCreated (list s) × Perm (list s) (values s.profiles)
unfolding list
list_lem s = (sort_by_created-IsSortedByCreated _, rw map-clone (sort_by_created-perm _))

-- A profile that the loop of `load_state` leaves under an id was there, or is among the decoded.
add_profiles_sound :
    (ps : List Profile) (d : Dict Profile) (id : String) (p : Profile)
    → lookup id (add_profiles ps d) ≡ some p
    → (lookup id d ≡ some p) ⊎ (Memᴰ p ps × (p.id ≡ id))
unfolding add_profiles
add_profiles_sound [] d id p h = inl h
add_profiles_sound (q ∷ ps) d id p h =
    elim (add_profiles_sound ps (if q.id == "" then d else insert q.id q d) id p h) [
      | inr (m, own) ↦ inr (Memᴰ.tail m, own)
      | inl found ↦ elim (Bool-cases (q.id == "")) [
        | inl skipped ↦ inl (rw skipped at found)
        | inr taken ↦ elim (Bool-cases (q.id == id)) [
          | inl same ↦ inr (
            Memᴰ.head (ground (arith, lookup-insert q.id id q d)),
            ground (arith, lookup-insert q.id id q d, eq_iff q.id id),
          )
          | inr other ↦ inl (ground (arith, lookup-insert q.id id q d))
        ]
      ]
    ]

-- If one profile alone has the id, in the map or among the decoded, it is found.
add_profiles_complete :
    (ps : List Profile) (d : Dict Profile) (id : String) (p : Profile)
    → id ≢ ""
    → ((q : Profile) → Memᴰ q ps → q.id ≡ id → q ≡ p)
    → (lookup id d ≡ some p) ⊎ (Memᴰ p ps × (p.id ≡ id))
    → lookup id (add_profiles ps d) ≡ some p
unfolding add_profiles
add_profiles_complete [] d id p named only (inl h) = h
add_profiles_complete [] d id p named only (inr (m, own)) = elim m [ ]
add_profiles_complete (q ∷ ps) d id p named only h =
    add_profiles_complete ps _ id p named (λ r m. only r (Memᴰ.tail m))
      (next q ps d id p named (only q (Memᴰ.head refl)) h)
  where
    next :
        (q : Profile) (ps : List Profile) (d : Dict Profile) (id : String) (p : Profile)
        → id ≢ ""
        → (q.id ≡ id → q ≡ p)
        → (lookup id d ≡ some p) ⊎ (Memᴰ p (q ∷ ps) × (p.id ≡ id))
        → (lookup id (if q.id == "" then d else insert q.id q d) ≡ some p)
          ⊎ (Memᴰ p ps × (p.id ≡ id))
    next q ps d id p named only (inl h) =
        inl (ground (arith, lookup-insert q.id id q d, eq_iff q.id id, eq_iff q.id "", only))
    next q ps d id p named only (inr (Memᴰ.head e, own)) = inl (
        ground (
          arith,
          lookup-insert q.id id q d,
          eq_iff q.id id,
          eq_iff q.id "",
          ap (λ (x : Profile). x.id) e,
          e,
        ))
    next q ps d id p named only (inr (Memᴰ.tail m, own)) = inr (m, own)

-- The ids under which profiles can be stored and read back.
pub record IsReadable (d : Dict Profile) : Type 0 where
  pub distinct : HasDistinctKeys d
  pub keyed : (id : String) (p : Profile) → lookup id d ≡ some p → p.id ≡ id
  pub named : lookup "" d ≡ none

-- Reading the written list back gives the map.
lookup-add_profiles :
    (d : Dict Profile) (id : String)
    → IsReadable d
    → lookup id (add_profiles (sort_by_created (map clone (values d))) []) ≡ lookup id d
unfolding lookup
lookup-add_profiles d id r =
    let written = sort_by_created (map clone (values d)) in
    let listed : (q : Profile) → Memᴰ q written → Memᴰ q (values d) =
      λ q m. subst (Memᴰ q) (map-clone (values d)) (of_mem-sort_by_created q _ m) in
    let unique : (q : Profile) → Memᴰ q written → lookup q.id d ≡ some q = λ q m.
      let (k, found) = lookup_of_mem q d r.distinct (listed q m) in
      ap (λ (x : String). lookup x d) (r.keyed k q found) ∙ found in
    elim (Option-cases (lookup id d)) [
      | inl absent ↦ elim (Option-cases (lookup id (add_profiles written []))) [
        | inl both ↦ both ∙ sym absent
        | inr (p, found) ↦ elim (add_profiles_sound written [] id p found) [
          | inl h ↦ cc
          | inr (m, own) ↦ let there = unique p m in cc
        ]
      ]
      | inr (p, found) ↦
          let named : id ≢ "" = λ e. cc (ap (λ (k : String). lookup k d) e, r.named) in
          let m : Memᴰ p written =
            mem-sort_by_created_of p _
              (subst (Memᴰ p) (sym (map-clone (values d))) (mem-values id p d found)) in
          add_profiles_complete written [] id p named
            (λ q m' own. let there = unique q m' in cc (ap (λ (k : String). lookup k d) own))
            (inr (m, r.keyed id p found))
          ∙ sym found
    ]

module _ {B : Type 0} (json : Codec (List Profile) B) where
  persist_locked_ok :
      (s : Service B)
      → s.state_file ≢ ""
      → (persist_locked json s).0 ≡ ok tt
      → (b : B) × (json.encode (sort_by_created (map clone (values s.profiles))) ≡ some b)
        × ((persist_locked json s).1.disk.file s.state_file ≡ bytes b)
  unfolding persist_locked
  persist_locked_ok s named h =
      elim (Option-cases (json.encode (sort_by_created (map clone (values s.profiles))))) [
        | inl fails ↦ let bad : ⊥ = ground (arith, eq_iff s.state_file "") in absurd bad
        | inr (b, encoded) ↦
            (b, encoded, ground (arith, eq_iff s.state_file "", eq_refl s.state_file))
      ]

  load_state_ok :
      (s : Service B) (b : B) (decoded : List Profile)
      → s.disk.file s.state_file ≡ bytes b
      → json.is_empty b ≡ false
      → json.decode b ≡ some decoded
      → load_state json s ≡ (ok tt, record s { profiles = add_profiles decoded s.profiles })
  unfolding load_state
  load_state_ok s b decoded held full read = rw (held, load_state) (rw full (rw (read, load_state)))

  new_service_with_file_ok :
      (path : String) (disk : Disk B) (s : Service B)
      → trim_space path ≡ path
      → path ≢ ""
      → load_state json (record { state_file = path; profiles = []; disk = disk }) ≡ (ok tt, s)
      → new_service_with_file json path disk ≡ ok s
  unfolding new_service_with_file
  new_service_with_file_ok path disk s trimmed named loaded =
      let again : load_state json
            (record { state_file = trim_space path; profiles = []; disk = disk })
          ≡ (ok tt, s) =
        subst
          (λ (q : String).
            load_state json (record { state_file = q; profiles = []; disk = disk }) ≡ (ok tt, s))
          (sym trimmed) loaded in
      let used : (trim_space path == "") ≡ false = rw trimmed (ne→not-eq path "" named) in
      rw (used, new_service_with_file)
        (rw (again, new_service_with_file)
          (ap (λ (x : Outcome (Service B) (Unit {0})). ok x.1) again))

  -- Where the path is trimmed and not empty, and the profiles stand once each under their own ids,
  -- none of them empty: after a write that succeeds, a new service on the file finds under every id the profile that
  -- the service had in memory.
  pub new_service-persist_locked :
      (s : Service B)
      → IsReadable s.profiles
      → trim_space s.state_file ≡ s.state_file
      → s.state_file ≢ ""
      → (persist_locked json s).0 ≡ ok tt
      → (s' : Service B) × (new_service_with_file json s.state_file (persist_locked json s).1.disk
          ≡ ok s')
        × ((id : String) → lookup id s'.profiles ≡ lookup id s.profiles)
  new_service-persist_locked s r trimmed named h =
      let (b, encoded, held) = persist_locked_ok s named h in
      let fresh : Service B = record {
        state_file = s.state_file;
        profiles = [];
        disk = (persist_locked json s).1.disk;
      } in
      let written = sort_by_created (map clone (values s.profiles)) in
      let decoded = json.decode-encode written b encoded in
      let full = json.encode-is_empty written b encoded in
      (
        record fresh { profiles = add_profiles written [] },
        new_service_with_file_ok s.state_file fresh.disk _ trimmed named
            (load_state_ok fresh b written held full decoded),
        λ id. lookup-add_profiles s.profiles id r,
      )

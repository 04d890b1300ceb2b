-- ===== src/Commands/Wait/Ends.antt =====
-- The command that waits for PostgreSQL ends, and with status 0 where the server answers in time.
use modern_mcs.Prelude.{
  ℕ, zero, suc, ◌+◌, ◌-◌, ◌*◌, ◌/◌, ◌≤◌, ◌<◌, String, ◌≡◌, ◌≢◌, refl, ap, sym, ◌∙◌, ◌⊎◌, inl, inr,
  Bool, true, false, some, ℤ, ltb, arith, Bool-cases, Option-cases, ◌==◌, ne→not-eq,
}
use modern_mcs.Commands.Wait.{
  Exit, ready, no_dsn, bad_timeout, open_failed, not_ready, Surroundings, pause, add_duration, wait,
  time_limit, rounds, main,
}

module _ (around : Surroundings) (deadline : ℕ) where
  abbrev next : ℕ → ℕ
  next now = now + (around.ping now).takes + pause + around.late (now + (around.ping now).takes)

  -- A round ends the loop, or leads to the next one.
  wait_cases :
      (fuel now : ℕ)
      → (((around.ping now).succeeds ≡ true) × (wait around (suc fuel) deadline now ≡ some ready))
        ⊎ (((around.ping now).succeeds ≡ false)
            × (deadline < now + (around.ping now).takes)
            × (wait around (suc fuel) deadline now ≡ some not_ready))
        ⊎ (((around.ping now).succeeds ≡ false)
            × (now + (around.ping now).takes ≤ deadline)
            × (wait around (suc fuel) deadline now ≡ wait around fuel deadline (next now)))
  unfolding wait
  wait_cases fuel now = elim (Bool-cases (around.ping now).succeeds) [
    | inl e ↦ inl (e, rw e refl)
    | inr e ↦ elim (Bool-cases (ltb deadline (now + (around.ping now).takes))) [
      | inl late ↦ inr (inl (e, ground arith, ground arith))
      | inr early ↦ inr (inr (e, ground arith, ground arith))
    ]
  ]

  wait-ends :
      (fuel now : ℕ)
      → deadline < now + fuel * pause
      → (exit : Exit) × (wait around (suc fuel) deadline now ≡ some exit)
  wait-ends zero now h = elim (wait_cases zero now) [
    | inl (e, ends) ↦ (ready, ends)
    | inr (inl (e, late, ends)) ↦ (not_ready, ends)
    | inr (inr (e, early, goes)) ↦ absurd (omega arith)
  ]
  wait-ends (suc fuel) now h = elim (wait_cases (suc fuel) now) [
    | inl (e, ends) ↦ (ready, ends)
    | inr (inl (e, late, ends)) ↦ (not_ready, ends)
    | inr (inr (e, early, goes)) ↦
        let (exit, ends) = wait-ends fuel (next now) (omega arith) in (exit, goes ∙ ends)
  ]

  -- What the last ping of a loop was.
  abbrev pub IsLast : ℕ → Exit → ℕ → Type 0
  IsLast now exit start =
      (now ≤ start)
      × (((exit ≡ ready) × ((around.ping start).succeeds ≡ true))
          ⊎ ((exit ≡ not_ready)
              × ((around.ping start).succeeds ≡ false)
              × (deadline < start + (around.ping start).takes)))

  wait-IsLast :
      (fuel now : ℕ) (exit : Exit)
      → wait around fuel deadline now ≡ some exit
      → (start : ℕ) × IsLast now exit start
  unfolding wait
  wait-IsLast zero now exit h = cc
  wait-IsLast (suc fuel) now exit h = elim (wait_cases fuel now) [
    | inl (e, ends) ↦ (now, (omega arith, inl (ground arith, e)))
    | inr (inl (e, late, ends)) ↦ (now, (omega arith, inr (ground arith, e, late)))
    | inr (inr (e, early, goes)) ↦
        let (start, (later, last)) = wait-IsLast fuel (next now) exit (sym goes ∙ h) in
        (start, (omega arith, last))
  ]

  module _ (up : ℕ) (answers : (start : ℕ) → up ≤ start → (around.ping start).succeeds ≡ true)
      (short : (start : ℕ) → (around.ping start).takes ≤ pause)
      (in_time : up + pause ≤ deadline) where
    wait_ready :
        (fuel now : ℕ) (exit : Exit) → wait around fuel deadline now ≡ some exit → exit ≡ ready
    unfolding wait
    wait_ready zero now exit h = cc
    wait_ready (suc fuel) now exit h = elim (wait_cases fuel now) [
      | inl (e, ends) ↦ ground arith
      | inr (inl (e, late, ends)) ↦
          let bad : ⊥ = ground (arith, answers now, short now) in absurd bad
      | inr (inr (e, early, goes)) ↦ wait_ready fuel (next now) exit (sym goes ∙ h)
    ]

  wait-rounds :
      (now : ℕ) → (exit : Exit) × (wait around (rounds deadline now) deadline now ≡ some exit)
  unfolding rounds
  wait-rounds now = wait-ends (suc ((deadline - now) / pause)) now (omega arith)

module _ (around : Surroundings) (dsn raw : String) (opens : Bool) (now : ℕ) where
  -- The command ends, whatever the server does and however long the time limit is.
  pub main-ends : (exit : Exit) × (main around dsn raw opens now ≡ some exit)
  unfolding main
  main-ends = elim (Bool-cases (dsn == "")) [
    | inl blank ↦ (no_dsn, rw blank refl)
    | inr named ↦ elim (Option-cases (time_limit raw)) [
      | inl bad ↦ (bad_timeout, rw (named, main) (rw (bad, main) refl))
      | inr (limit, good) ↦ elim (Bool-cases opens) [
        | inr closed ↦ (open_failed, rw (named, main) (rw (good, main) (rw closed refl)))
        | inl opened ↦
            let (exit, ends) = wait-rounds around (add_duration now limit) now in
            (exit, rw (named, main) (rw (good, main) (rw opened ends)))
      ]
    ]
  ]

  module _ (limit : ℤ) (named : dsn ≢ "") (good : time_limit raw ≡ some limit)
      (opened : opens ≡ true) where
    main-wait :
        main around dsn raw opens now
        ≡ wait around (rounds (add_duration now limit) now) (add_duration now limit) now
    unfolding main
    main-wait = rw (ne→not-eq dsn "" named, main) (rw (good, main) (rw opened refl))

    -- With a DSN, a time limit and a connection that opens: if the server answers every ping from
    -- some instant on, at least two seconds before the limit is over, and no ping takes longer than
    -- its two seconds, the command ends with the exit for a server that is ready.
    pub main_ready :
        (up : ℕ)
        → ((start : ℕ) → up ≤ start → (around.ping start).succeeds ≡ true)
        → ((start : ℕ) → (around.ping start).takes ≤ pause)
        → up + pause ≤ add_duration now limit
        → main around dsn raw opens now ≡ some ready
    main_ready up answers short in_time =
        let deadline = add_duration now limit in
        let (exit, ends) = wait-rounds around deadline now in
        main-wait
        ∙ ends
        ∙ ap some (
            wait_ready around deadline up answers short in_time (rounds deadline now) now exit ends)

    -- With a DSN, a time limit and a connection that opens, the command says that the server is ready
    -- only after a ping that it answered, and that it is not only after a ping that it did not answer
    -- and that ended behind the time limit.
    pub main-IsLast :
        (exit : Exit)
        → main around dsn raw opens now ≡ some exit
        → (start : ℕ) × IsLast around (add_duration now limit) now exit start
    main-IsLast exit h =
        wait-IsLast around (add_duration now limit) (rounds (add_duration now limit) now) now exit
          (sym main-wait ∙ h)

-- ===== src/Text/Decimal.antt =====
-- The verb `%d` of package `fmt`, for numbers that are not negative.
use Prim.Native.Nat.{zero}
use Prim.Native.String.{[], ◌∷◌}
use modern_mcs.Prelude.{ℕ, suc, ◌/◌, ◌%◌, String, ltb, if◌then◌else◌}
use modern_mcs.Text.Hex.{nth_char}

-- The digits of `n` in front of `acc`; each round of the fuel writes one.
unfoldable pub decimal_from : ℕ → ℕ → String → String
unfolding nth_char
decimal_from zero n acc = acc
decimal_from (suc fuel) n acc =
    let longer = nth_char "0123456789" (n % 10) ∷ acc in
    let rest = decimal_from fuel (n / 10) longer in if ltb n 10 then longer else rest

-- A number has fewer digits than itself plus one.
unfoldable pub decimal : ℕ → String
unfolding decimal_from
decimal n = decimal_from (suc n) n []

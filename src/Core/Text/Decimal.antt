-- ===== src/Core/Text/Decimal.antt =====
-- `to_string` of Rust's unsigned integers.
use yams.Prelude.{ℕ, zero, suc, ◌+◌, ◌/◌, ◌%◌, true, false, [], ◌∷◌, ltb}
use yams.Core.Text.{Text}

-- The digits of `n` in front of the digits behind; `n` rounds are enough for a number below 10 ^ n.
unfoldable pub decimal_loop : ℕ → ℕ → Text → Text
decimal_loop zero n digits = digits
decimal_loop (suc fuel) n digits =
    let more = (48 + n % 10) ∷ digits in
    elim (ltb n 10) [ true ↦ more | false ↦ decimal_loop fuel (n / 10) more ]

unfoldable pub decimal : ℕ → Text
unfolding decimal_loop
decimal n = decimal_loop (suc n) n []

-- ===== src/Prelude/Decimal.antt =====
-- The decimal text of a number, fmt's %d.
use Prim.Native.Nat.{ℕ, zero, suc, ◌/◌, ◌%◌}
use Prim.Native.String.{String, ◌++◌}
use sensor_edge.Prelude.Tests.{ltb, ◌==◌, if◌then◌else◌}

abbrev digit : ℕ → String
digit d =
    if d == 0
    then "0"
    else if d == 1
    then "1"
    else if d == 2
    then "2"
    else if d == 3
    then "3"
    else if d == 4
    then "4"
    else if d == 5
    then "5"
    else if d == 6
    then "6"
    else if d == 7
    then "7"
    else if d == 8
    then "8"
    else "9"

-- Each round drops a digit, so that one round more than the number is enough.
digits_of : ℕ → ℕ → String
digits_of zero n = ""
digits_of (suc fuel) n =
    let front = digits_of fuel (n / 10) ++ digit (n % 10) in if ltb n 10 then digit n else front

unfoldable pub decimal_text : ℕ → String
unfolding digits_of
decimal_text n = digits_of (suc n) n

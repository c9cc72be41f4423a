-- ===== src/Base/Text.antt =====
-- Decimal text, as strconv.FormatInt(n, 10) writes a number that is not negative.
use Prim.Native.Nat.{ℕ, zero, suc, ◌/◌, ◌%◌}
use Prim.Native.String.{String, ◌++◌}
use full.Base.Tests.{ltb, if◌then◌else◌, ◌==◌, nat_eq}

infixr 65 ◌+++◌
-- String concatenation.
abbrev pub ◌+++◌ : String → String → String
s +++ t = s ++ t

unfoldable pub digit : ℕ → String
digit d =
    if d == 0
    then "0"
    else if d == 1
    then "1"
    else if d == 2
    then "2"
    else if d == 3
    then "3"
    else if d == 4
    then "4"
    else if d == 5
    then "5"
    else if d == 6
    then "6"
    else if d == 7
    then "7"
    else if d == 8
    then "8"
    else "9"

unfoldable pub digits : ℕ → ℕ → String
digits zero n = ""
digits (suc fuel) n =
    let rest = digits fuel (n / 10) +++ digit (n % 10) in if ltb n 10 then digit n else rest

-- A number below 10 ^ k takes k rounds at most, and n < 10 ^ (n + 1).
unfoldable pub format_int : ℕ → String
unfolding digits digit
format_int n = digits (suc n) n

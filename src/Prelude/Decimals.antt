-- ===== src/Prelude/Decimals.antt =====
-- Numbers in decimal, as std::to_string and operator<< print them, up to twenty digits.
use Prim.Native.Nat.{ℕ, zero, suc, ◌/◌, ◌%◌}
use Prim.Native.String.{String, ◌++◌}
use roborun.Prelude.Tests.{ltb, if◌then◌else◌, ◌==◌}
use roborun.Prelude.Int.{ℤ, pos, negsuc}

unfoldable pub digit : ℕ → String
digit n =
    if n == 0
    then "0"
    else if n == 1
    then "1"
    else if n == 2
    then "2"
    else if n == 3
    then "3"
    else if n == 4
    then "4"
    else if n == 5
    then "5"
    else if n == 6
    then "6"
    else if n == 7
    then "7"
    else if n == 8
    then "8"
    else "9"

unfoldable pub digits_of : ℕ → ℕ → String
unfolding digit
digits_of zero n = ""
digits_of (suc f) n =
    let rest = digits_of f (n / 10) in if ltb n 10 then digit n else rest ++ digit (n % 10)

unfoldable pub decimal : ℕ → String
unfolding digits_of
decimal n = digits_of 20 n

unfoldable pub decimalℤ : ℤ → String
unfolding decimal
decimalℤ (pos n) = decimal n
decimalℤ (negsuc n) = "-" ++ decimal (suc n)

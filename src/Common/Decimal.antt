-- ===== src/Common/Decimal.antt =====
-- Numbers and literals as texts.
use Prim.Native.Char.{code}
use fleet_tracking_system.Common.Classes.{Text}
use Prim.Native.String.{String}
use mathlib.Core.List.{[], ◌∷◌, ◌++◌}
use Prim.Native.Nat.{ℕ, zero, suc, ◌+◌, ◌/◌, ◌%◌}
use fleet_tracking_system.Common.Tests.{ltb, if◌then◌else◌}

-- The characters of a literal.
abbrev pub codes : String → Text
codes String.[] = []
codes (String.◌∷◌ c s) = code c ∷ codes s

-- The decimal digits of `n`; the fuel `n + 1` is more than there are digits.
unfoldable pub decimal_fuel : ℕ → ℕ → Text
decimal_fuel zero n = []
decimal_fuel (suc f) n =
    let more = decimal_fuel f (n / 10) ++ ((48 + n % 10) ∷ []) in
    if ltb n 10 then (48 + n) ∷ [] else more

unfoldable pub decimal : ℕ → Text
unfolding decimal_fuel
decimal n = decimal_fuel (suc n) n

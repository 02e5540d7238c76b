-- ===== src/ControlPlane/ImmobilizerCommand.antt =====
-- services/control-plane/src/modules/devices/immobilizer-command.ts: the `setdigout` command, and
-- the test that a vehicle stands. Speeds are whole numbers, so `Math.round` does nothing.
use fleet_tracking_system.Common.{
  ℕ, [], ◌∷◌, ◌++◌, Bool, ◌||◌, not, true, false, Option, none, some, Text, ltb, ◌==◌, nat_eq,
  if◌then◌else◌,
}
use fleet_tracking_system.Common.Decimal.{codes, decimal}
use fleet_tracking_system.Common.{min, max}

pub record Wiring : Type 0 where
  pub dout : ℕ
  pub active_high : Bool
  pub max_engage_kph : ℕ

unfoldable pub bool_eq : Bool → Bool → Bool
bool_eq true b = b
bool_eq false b = not b

-- The digit of the level, 1 or 0.
unfoldable pub level_for : Bool → Bool → ℕ
unfolding bool_eq
level_for immobilize active_high = if bool_eq immobilize active_high then b'1' else b'0'

-- Four places, `?` in each but that of `dout`.
unfoldable pub place : ℕ → ℕ → Text → Text
place dout i t = if i == dout then t else b'?' ∷ []

unfoldable pub state_string : ℕ → ℕ → Option Text
unfolding place
state_string dout level =
    if ltb dout 1 || ltb 4 dout
    then none
    else some (
        place dout 1 (level ∷ [])
        ++ (place dout 2 (level ∷ []) ++ (place dout 3 (level ∷ []) ++ place dout 4 (level ∷ []))))

unfoldable pub spaced : ℕ → Text → Text
unfolding place
spaced dout t =
    place dout 1 t
    ++ (b' ' ∷ (place dout 2 t ++ (b' ' ∷ (place dout 3 t ++ (b' ' ∷ place dout 4 t)))))

-- The speed threshold that the device is given: 0 is no gate.
unfoldable pub threshold : Bool → ℕ → ℕ
threshold immobilize max_engage_kph = if immobilize then max 1 (min 50 max_engage_kph) else 0

-- `none` is the error of a `dout` out of range.
unfoldable pub build_set_digout : Bool → Wiring → Option Text
unfolding level_for state_string spaced threshold
build_set_digout immobilize wiring =
    elim (state_string wiring.dout (level_for immobilize wiring.active_high)) [
      | none ↦ none
      | some states ↦ some (
          codes "setdigout "
          ++ (states
              ++ (b' '
                  ∷ (spaced wiring.dout (codes "0")
                      ++ (b' '
                          ∷ spaced wiring.dout
                              (decimal (threshold immobilize wiring.max_engage_kph)))))))
    ]

-- `assertSafeToImmobilize`: `false` where it throws. An unknown speed passes.
unfoldable pub safe_to_immobilize : Option ℕ → ℕ → Bool
safe_to_immobilize none max_engage_kph = true
safe_to_immobilize (some speed) max_engage_kph = not (ltb max_engage_kph speed)

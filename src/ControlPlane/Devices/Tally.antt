-- ===== src/ControlPlane/Devices/Tally.antt =====
-- How the changes of the device repository change the number of rows that a test holds of.
use fleet_tracking_system.Common.{
  ℕ, ◌+◌, ◌≤◌, List, [], ◌∷◌, ◌≡◌, refl, arith, Bool, ◌&&◌, not, true, false, none, some, Text,
  text_eq, ◌==◌, nat_eq, if◌then◌else◌, Bool-cases, inl, inr,
}
use fleet_tracking_system.Common.{contains}
use fleet_tracking_system.Common.Dict
use fleet_tracking_system.Common.Dict.{Dict}
use fleet_tracking_system.ControlPlane.Devices.{
  Device, is_live, tally, find_by_imei, sending, without,
}

abbrev pub bit : Bool → ℕ
bit b = if b then 1 else 0

-- Live rows of an IMEI, and those of them that may send.
abbrev pub live_imei : Text → Device → Bool
live_imei imei d = d.imei == imei && is_live d

abbrev pub sends : Text → Device → Bool
sends imei d = (d.imei == imei && is_live d) && sending d.status

pub tally-set :
    (p : Device → Bool) (k : ℕ) (d d' : Device) (m : Dict ℕ Device)
    → Dict.get k m ≡ some d
    → tally p (Dict.set k d' m) + bit (p d) ≡ tally p m + bit (p d')
unfolding tally Dict.get Dict.set
tally-set p k d d' [] h = absurd (ground arith)
tally-set p k d d' ((j, u) ∷ m) h = elim (Bool-cases (j == k)) [
  | inl eq ↦ ground arith
  | inr ne ↦ ground (arith, tally-set p k d d' m (ground arith))
]

pub tally-set_new :
    (p : Device → Bool) (k : ℕ) (d : Device) (m : Dict ℕ Device)
    → Dict.get k m ≡ none
    → tally p (Dict.set k d m) ≡ tally p m + bit (p d)
unfolding tally Dict.get Dict.set
tally-set_new p k d [] h = ground arith
tally-set_new p k d ((j, u) ∷ m) h = elim (Bool-cases (j == k)) [
  | inl eq ↦ absurd (ground arith)
  | inr ne ↦ ground (arith, tally-set_new p k d m (ground arith))
]

pub tally_le :
    (p q : Device → Bool) (m : Dict ℕ Device)
    → ((d : Device) → p d ≡ true → q d ≡ true)
    → tally p m ≤ tally q m
unfolding tally
tally_le p q [] h = omega arith
tally_le p q ((k, d) ∷ m) h = ground (arith, tally_le p q m h, h d)

pub tally-sends_le :
    (imei : Text) (m : Dict ℕ Device) → tally (sends imei) m ≤ tally (live_imei imei) m
tally-sends_le imei m = tally_le (sends imei) (live_imei imei) m (λ d h. ground arith)

-- A row that is there is counted.
pub tally-get :
    (p : Device → Bool) (k : ℕ) (d : Device) (m : Dict ℕ Device)
    → Dict.get k m ≡ some d
    → bit (p d) ≤ tally p m
unfolding tally Dict.get
tally-get p k d [] h = absurd (ground arith)
tally-get p k d ((j, u) ∷ m) h = elim (Bool-cases (j == k)) [
  | inl eq ↦ ground arith
  | inr ne ↦ ground (arith, tally-get p k d m (ground arith))
]

pub tally-find_none :
    (imei : Text) (m : Dict ℕ Device) → find_by_imei imei m ≡ none → tally (live_imei imei) m ≡ 0
unfolding tally find_by_imei
tally-find_none imei [] h = refl
tally-find_none imei ((k, d) ∷ m) h = elim (Bool-cases (d.imei == imei && is_live d)) [
  | inl is ↦ absurd (ground arith)
  | inr other ↦ ground (arith, tally-find_none imei m (ground arith))
]

pub contains-without :
    (imei other : Text) (xs : List Text)
    → contains other (without imei xs) ≡ (not (imei == other) && contains other xs)
unfolding without
contains-without imei other [] = ground arith
contains-without imei other (x ∷ xs) = ground (
  arith,
  contains-without imei other xs,
  text_eq.beq_iff x imei,
  text_eq.beq_iff x other,
  text_eq.beq_iff imei other,
)

pub without_absent :
    (imei : Text) (xs : List Text) → contains imei xs ≡ false → without imei xs ≡ xs
unfolding without
without_absent imei [] h = refl
without_absent imei (x ∷ xs) h = ground (arith, without_absent imei xs)

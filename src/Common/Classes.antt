-- ===== src/Common/Classes.antt =====
-- Equality as an interface, for numbers and for texts (lists of character codes).
use Prim.Native.Nat.{ℕ}
use mathlib.Core.Path.{◌≡◌, refl}
use mathlib.Core.Logic.{◌↔◌}
use mathlib.Core.Bool.{Bool, true, false, ◌&&◌}
use mathlib.Core.List.{List, [], ◌∷◌}
use native.Mathlib.Omega.{arith}
use Prim.Native.String.{String}
use text.Mathlib.Text.{◌==◌ as string_beq}
use text.Mathlib.TextEquality.{eq_iff}
use fleet_tracking_system.Common.Tests.{nat_beq, nat_beq_iff}

pub record Eq {ℓ} (A : Type ℓ) : Type ℓ where
  pub beq : A → A → Bool
  pub beq_iff : (x y : A) → (beq x y ≡ true) ↔ (x ≡ y)

instance abbrev pub nat_eq : Eq ℕ
nat_eq = record { beq_iff = nat_beq_iff; beq = nat_beq }

-- A text is the list of its character codes.
abbrev pub Text : Type 0
Text = List ℕ

abbrev pub text_beq : Text → Text → Bool
text_beq [] [] = true
text_beq [] (d ∷ t) = false
text_beq (c ∷ s) [] = false
text_beq (c ∷ s) (d ∷ t) = nat_beq c d && text_beq s t

pub text_beq_iff : (s t : Text) → (text_beq s t ≡ true) ↔ (s ≡ t)
text_beq_iff [] [] = ground arith
text_beq_iff [] (d ∷ t) = ground arith
text_beq_iff (c ∷ s) [] = ground arith
text_beq_iff (c ∷ s) (d ∷ t) = ground (arith, text_beq_iff s t)

instance abbrev pub text_eq : Eq Text
text_eq = record { beq = text_beq; beq_iff = text_beq_iff }

infix 50 ◌==◌
abbrev pub ◌==◌ {κ} : {B : Type κ} ⦃same : Eq B⦄ → B → B → Bool
◌==◌ ⦃same⦄ = same.beq

pub ==_refl {ℓ} : {A : Type ℓ} ⦃e : Eq A⦄ (a : A) → (a == a) ≡ true
==_refl ⦃e⦄ a = (e.beq_iff a a).1 refl

instance abbrev pub string_eq : Eq String
string_eq = record { beq = string_beq; beq_iff = eq_iff }

-- A pair of numbers as a key.
abbrev pub pair_beq : ℕ × ℕ → ℕ × ℕ → Bool
pair_beq (a, b) (c, d) = nat_beq a c && nat_beq b d

pub pair_beq_iff : (p q : ℕ × ℕ) → (pair_beq p q ≡ true) ↔ (p ≡ q)
pair_beq_iff (a, b) (c, d) = ground arith

instance abbrev pub pair_eq : Eq (ℕ × ℕ)
pair_eq = record { beq = pair_beq; beq_iff = pair_beq_iff }

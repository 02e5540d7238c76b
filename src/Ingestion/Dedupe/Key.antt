-- ===== src/Ingestion/Dedupe/Key.antt =====
-- `dedupeKey` of dedupe.ts: which records can share a key.
use fleet_tracking_system.Common.{
  ℕ, zero, suc, ◌+◌, ◌-◌, ◌*◌, ◌/◌, ◌%◌, ◌<◌, List, [], ◌∷◌, ◌++◌, ◌≡◌, ◌≢◌, refl, sym, ap, ◌∙◌,
  arith, Option, none, some, Text, ltb, nat_eq, Bool-cases, inl, inr, All,
}
use fleet_tracking_system.Common.Int.{ℤ}
use fleet_tracking_system.Common.Decimal.{decimal, decimal_fuel}
use mathlib.Core.Path.{subst}
use fleet_tracking_system.Protocol.Codec8.{Values, AvlRecord}
use fleet_tracking_system.Ingestion.Dedupe.{time_text, dedupe_key, hash_input}

-- The number that decimal digits stand for, behind `acc`.
value : ℕ → Text → ℕ
value acc [] = acc
value acc (c ∷ s) = value (acc * 10 + (c - 48)) s

value-concat : (acc c : ℕ) (s : Text) → value acc (s ++ c ∷ []) ≡ value acc s * 10 + (c - 48)
unfolding value
value-concat acc c [] = refl
value-concat acc c (d ∷ s) = value-concat (acc * 10 + (d - 48)) c s

value-decimal_fuel : (f n : ℕ) → n < f → value 0 (decimal_fuel f n) ≡ n
unfolding decimal_fuel
value-decimal_fuel zero n h = absurd (omega arith)
value-decimal_fuel (suc f) n h = elim (Bool-cases (ltb n 10)) [
  | inl small ↦ rw small (unfold value in omega arith)
  | inr big ↦
      rw
        (
          big,
          value-concat 0 (48 + n % 10) (decimal_fuel f (n / 10)),
          value-decimal_fuel f (n / 10) (ground arith),
        )
        (omega arith)
]

decimal-injective : (m n : ℕ) → decimal m ≡ decimal n → m ≡ n
unfolding decimal
decimal-injective m n h =
    sym (value-decimal_fuel (suc m) m (omega arith))
    ∙ ap (value 0) h
    ∙ value-decimal_fuel (suc n) n (omega arith)

abbrev pub NoColon : Text → Type 0
NoColon = All (λ c. c ≢ b':')

-- The characters of a number lie below the colon.
abbrev Digits : Text → Type 0
Digits = All (λ c. c < b':')

Digits-concat : (s : Text) (c : ℕ) → Digits s → c < b':' → Digits (s ++ c ∷ [])
Digits-concat [] c h hc = (hc, tt)
Digits-concat (d ∷ s) c (hd, h) hc = (hd, Digits-concat s c h hc)

Digits-decimal_fuel : (f n : ℕ) → Digits (decimal_fuel f n)
unfolding decimal_fuel
Digits-decimal_fuel zero n = tt
Digits-decimal_fuel (suc f) n = elim (Bool-cases (ltb n 10)) [
  | inl small ↦ rw small (ground arith, tt)
  | inr big ↦ rw big (Digits-concat _ _ (Digits-decimal_fuel f (n / 10)) (omega arith))
]

Digits-NoColon : (s : Text) → Digits s → NoColon s
Digits-NoColon [] h = tt
Digits-NoColon (c ∷ s) (hc, h) = ((λ e. omega arith), Digits-NoColon s h)

NoColon-time_text : (o : Option ℕ) → NoColon (time_text o)
unfolding time_text decimal
NoColon-time_text none = ((λ e. omega arith), ((λ e. omega arith), ((λ e. omega arith), tt)))
NoColon-time_text (some ms) = Digits-NoColon _ (Digits-decimal_fuel (suc ms) ms)

time_text-ne-NaN : (m : ℕ) → time_text none ≢ time_text (some m)
unfolding time_text decimal
time_text-ne-NaN m e =
    let d : Digits (time_text none) = subst Digits (sym e) (Digits-decimal_fuel (suc m) m) in
    absurd (omega (arith, d.0))

split_colon :
    (s s' t t' : Text)
    → NoColon s
    → NoColon s'
    → s ++ b':' ∷ t ≡ s' ++ b':' ∷ t'
    → (s ≡ s') × (t ≡ t')
split_colon [] [] t t' h h' e = ground arith
split_colon [] (c ∷ s') t t' h (hc, h') e = absurd (hc (ground arith))
split_colon (c ∷ s) [] t t' (hc, h) h' e = absurd (hc (ground arith))
split_colon (c ∷ s) (d ∷ s') t t' (hc, h) (hd, h') e =
    ground (arith, split_colon s s' t t' h h' (ground arith))

time_text-injective : (o p : Option ℕ) → time_text o ≡ time_text p → o ≡ p
time_text-injective none none e = refl
time_text-injective none (some m) e = absurd (time_text-ne-NaN m e)
time_text-injective (some m) none e = absurd (time_text-ne-NaN m (sym e))
time_text-injective (some m) (some n) e = unfold time_text in ap some (decimal-injective m n e)

-- Whatever the digest, records that share a key come from one device and have one timestamp, for
-- IMEIs that hold no colon.
pub dedupe_key_sound :
    (sha1_hex : Text → Text) (imei imei' : Text) (rec rec' : AvlRecord)
    → NoColon imei
    → NoColon imei'
    → dedupe_key sha1_hex imei rec ≡ dedupe_key sha1_hex imei' rec'
    → (imei ≡ imei') × (rec.timestamp ≡ rec'.timestamp)
unfolding dedupe_key
dedupe_key_sound sha1_hex imei imei' rec rec' h h' e =
    let (ei, er) = split_colon imei imei' _ _ h h' e in
    let (et, eh) =
      split_colon (time_text rec.timestamp) (time_text rec'.timestamp) _ _
        (NoColon-time_text rec.timestamp) (NoColon-time_text rec'.timestamp) er in
    (ei, time_text-injective _ _ et)

-- The key does not read the altitude, the satellites and the variable-length elements: records that
-- differ in these alone share a key, whatever the digest.
pub dedupe_key_blind :
    (sha1_hex : Text → Text) (imei : Text) (rec : AvlRecord) (altitude : ℤ) (satellites : ℕ)
    (variable : Option (Values (List ℕ)))
    → dedupe_key sha1_hex imei (record rec {
      gps = record (rec.gps) { altitude = altitude; satellites = satellites };
      io = record (rec.io) { variable = variable };
    })
      ≡ dedupe_key sha1_hex imei rec
unfolding dedupe_key hash_input
dedupe_key_blind sha1_hex imei rec altitude satellites variable = refl

-- The parts are digested with nothing between them: event 1 with the value v of element 21 and event
-- 12 with the value v of element 1 share a key, at one instant and place, whatever the digest.
pub dedupe_key_ambiguous :
    (sha1_hex : Text → Text) (imei : Text) (rec : AvlRecord) (v : ℕ)
    → dedupe_key sha1_hex imei
        (record rec { io = record { event_id = 1; values = (21, v) ∷ []; variable = none } })
      ≡ dedupe_key sha1_hex imei
          (record rec { io = record { event_id = 12; values = (1, v) ∷ []; variable = none } })
unfolding dedupe_key hash_input
dedupe_key_ambiguous sha1_hex imei rec v = refl

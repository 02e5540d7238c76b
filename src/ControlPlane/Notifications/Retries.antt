-- ===== src/ControlPlane/Notifications/Retries.antt =====
-- The retries of a webhook.
use fleet_tracking_system.Common.{
  ltb, ℕ, zero, suc, ◌+◌, ◌-◌, ◌≤◌, ◌<◌, ◌≡◌, ◌≢◌, ◌⊎◌, refl, arith, true, false, text_eq, nat_eq,
  Bool-cases, inl, inr,
}
use mathlib.Core.Path.{subst}
use fleet_tracking_system.ControlPlane.Notifications.{
  Fetched, network_error, response, is_ok, settles, Delivery, after_failure, attempts, deliver,
}

-- Either an answer settled the delivery, the last of the requests, with none before it that did; or none of the
-- attempts allowed did, and all were made.
record SettledBy (fetch : ℕ → Fetched) (first left : ℕ) (d : Delivery) : Type 0 where
  pub within : d.requests ≤ left
  pub last :
      d.returned ≡ true → (0 < d.requests) × (settles (fetch (first + d.requests - 1)) ≡ true)
  pub before : (k : ℕ) → k + 1 < d.requests → settles (fetch (first + k)) ≡ false
  pub exhausted :
      d.returned ≡ false
      → (d.requests ≡ left) × ((k : ℕ) → k < left → settles (fetch (first + k)) ≡ false)

-- One transient answer, and the later ones.
shifted :
    (fetch : ℕ → Fetched) (first k : ℕ)
    → settles (fetch first) ≡ false
    → ((j : ℕ) → k ≡ suc j → settles (fetch (first + 1 + j)) ≡ false)
    → settles (fetch (first + k)) ≡ false
shifted fetch first zero again later = subst (λ i. settles (fetch i) ≡ false) (omega arith) again
shifted fetch first (suc j) again later =
    subst (λ i. settles (fetch i) ≡ false) (omega arith) (later j refl)

attempts-SettledBy :
    (fetch : ℕ → Fetched) (left first : ℕ) → SettledBy fetch first left (attempts fetch left first)
unfolding attempts after_failure
attempts-SettledBy fetch zero first = record {
  within = omega arith;
  last = λ h. absurd (ground arith);
  before = λ k h. absurd (omega (arith, h));
  exhausted = λ h. (refl, λ k lt. absurd (omega (arith, lt)));
}
attempts-SettledBy fetch (suc left) first = elim (Bool-cases (settles (fetch first))) [
  | inl done ↦ rw done (record {
    within = omega arith;
    last = λ h. (omega arith, subst (λ i. settles (fetch i) ≡ true) (omega arith) done);
    before = λ k h. absurd (omega (arith, h));
    exhausted = λ h. absurd (ground arith);
  })
  | inr again ↦
      let rest = attempts fetch left (first + 1) in
      let o = attempts-SettledBy fetch left (first + 1) in
      rw again (record {
        within = omega (arith, o.within);
        last = λ h.
            let (some_, settled) = o.last h in
            (omega arith, subst (λ i. settles (fetch i) ≡ true) (omega (arith, some_)) settled);
        before = λ k h. shifted fetch first k again (λ j e. o.before j (omega (arith, h, e)));
        exhausted = λ h.
            let (all, none_) = o.exhausted h in
            (
              omega (arith, all),
              λ k lt. shifted fetch first k again (λ j e. none_ j (omega (arith, lt, e))),
            );
      })
]

-- An answer after which there is nothing to try again: below 500, and not 429 (too many requests).
abbrev pub Final : Fetched → Type 0
Final network_error = ⊥
Final (response status) = (status < 500) × (status ≢ 429)

-- What may be gone at the next attempt: a network error, a server error, and 429.
abbrev pub Transient : Fetched → Type 0
Transient network_error = Unit
Transient (response status) = (500 ≤ status) ⊎ (status ≡ 429)

settles-Final : (f : Fetched) → settles f ≡ true → Final f
unfolding settles is_ok
settles-Final network_error h = cc
settles-Final (response status) h = (ground arith, ground arith)

settles-Transient : (f : Fetched) → settles f ≡ false → Transient f
unfolding settles is_ok
settles-Transient network_error h = tt
settles-Transient (response status) h = elim (Bool-cases (ltb status 500)) [
  | inl low ↦ inr (ground arith)
  | inr high ↦ inl (ground arith)
]

-- Either an answer was final, that of the last of the requests, and those before it were transient; or none of the
-- attempts allowed met a final one, and all were made.
pub record Settled (fetch : ℕ → Fetched) (first left : ℕ) (d : Delivery) : Type 0 where
  pub within : d.requests ≤ left
  pub last : d.returned ≡ true → (0 < d.requests) × Final (fetch (first + d.requests - 1))
  pub before : (k : ℕ) → k + 1 < d.requests → Transient (fetch (first + k))
  pub exhausted :
      d.returned ≡ false
      → (d.requests ≡ left) × ((k : ℕ) → k < left → Transient (fetch (first + k)))

-- A webhook is posted to at most as often as there are retries: the delivery returns at the first answer with a
-- status below 500 that is not 429, and it fails only when every attempt met a network error, a status of 500 or
-- more, or 429, and all of them were made.
pub deliver-Settled :
    (retries : ℕ) (fetch : ℕ → Fetched) → Settled fetch 1 retries (deliver retries fetch)
unfolding deliver
deliver-Settled retries fetch =
    let o = attempts-SettledBy fetch retries 1 in
    record {
      within = o.within;
      last = λ h. ((o.last h).0, settles-Final _ (o.last h).1);
      before = λ k lt. settles-Transient _ (o.before k lt);
      exhausted = λ h. ((o.exhausted h).0, λ k lt. settles-Transient _ ((o.exhausted h).1 k lt));
    }

-- ===== src/ControlPlane/Totp/Window.antt =====
-- Which codes verifyTotp takes, and when.
use fleet_tracking_system.Common.{
  text_eq, ℕ, zero, suc, ◌+◌, ◌-◌, ◌*◌, ◌/◌, ◌≤◌, ◌<◌, List, ◌≡◌, refl, ap, ◌∙◌, arith, true, false,
  some, Text, ltb, ◌==◌, nat_eq, Bool-cases, inl, inr,
}
use fleet_tracking_system.ControlPlane.Totp.{six_digits, step_ms, code_of, totp, tries, verify_totp}

module _ (hmac_sha1 : List ℕ → List ℕ → List ℕ) (secret target : Text) where
  -- One of so many steps from a time on has the code.
  abbrev Hit : ℕ → ℕ → Type 0
  Hit n time = (k : ℕ) × (k < n) × (totp hmac_sha1 secret (time + k * 30000) ≡ target)

  tries_hit : (n time : ℕ) → tries hmac_sha1 secret target n time ≡ true → Hit n time
  unfolding tries step_ms
  tries_hit zero time h = ground arith
  tries_hit (suc n) time h = elim (Bool-cases (totp hmac_sha1 secret time == target)) [
    | inl same ↦ (
      0,
      omega arith,
      ap (totp hmac_sha1 secret) (omega arith)
          ∙ (text_eq.beq_iff (totp hmac_sha1 secret time) target).0 same,
    )
    | inr other ↦
        let (k, lt, e) = tries_hit n (time + 30000) (ground (arith, h, other)) in
        (suc k, omega (arith, lt), ap (totp hmac_sha1 secret) (omega arith) ∙ e)
  ]

  hit_tries :
      (n time k : ℕ)
      → k < n
      → totp hmac_sha1 secret (time + k * 30000) ≡ target
      → tries hmac_sha1 secret target n time ≡ true
  unfolding tries step_ms
  hit_tries zero time k lt h = ground (arith, lt)
  hit_tries (suc n) time zero lt h =
      let here : totp hmac_sha1 secret time ≡ target =
        ap (totp hmac_sha1 secret) (omega arith) ∙ h in
      rw ((text_eq.beq_iff (totp hmac_sha1 secret time) target).1 here) refl
  hit_tries (suc n) time (suc k) lt h =
      let rest =
        hit_tries n (time + 30000) k (omega (arith, lt))
          (ap (totp hmac_sha1 secret) (omega arith) ∙ h) in
      elim (Bool-cases (totp hmac_sha1 secret time == target)) [
        | inl same ↦ rw same refl
        | inr other ↦ rw other rest
      ]

  same_step :
      (time window s : ℕ)
      → window * 30000 ≤ time
      → s ≤ time + window * 30000
      → time ≤ s + window * 30000
      → totp hmac_sha1 secret s ≡ target
      → Hit (2 * window + 1) (time - window * 30000)
  unfolding totp step_ms
  same_step time window s le upper lower h =
      let from = time - window * 30000 in
      let k = s / 30000 - from / 30000 in
      (
        k,
        omega (arith, le, upper, lower),
        ap (code_of hmac_sha1 secret) (omega (arith, le, upper, lower)) ∙ h,
      )

-- At a time that the window does not take before 1970, a code is taken exactly when it is, padded to six digits,
-- the code of some time not further away than the window's steps of 30 seconds.
pub verify_totp_exact :
    (hmac_sha1 : List ℕ → List ℕ → List ℕ) (secret code : Text) (time window : ℕ)
    → window * 30000 ≤ time
    → (verify_totp hmac_sha1 secret code time window ≡ some true
        → (s : ℕ) × (s ≤ time + window * 30000)
          × (time ≤ s + window * 30000)
          × (totp hmac_sha1 secret s ≡ six_digits code))
      × ((s : ℕ)
          → s ≤ time + window * 30000
          → time ≤ s + window * 30000
          → totp hmac_sha1 secret s ≡ six_digits code
          → verify_totp hmac_sha1 secret code time window ≡ some true)
unfolding verify_totp step_ms
verify_totp_exact hmac_sha1 secret code time window le =
    let target = six_digits code in
    let from = time - window * 30000 in
    let late : ltb time (window * 30000) ≡ false = ground (arith, le) in
    (
      (λ h.
          let (k, lt, e) =
            tries_hit hmac_sha1 secret target (2 * window + 1) from (ground (arith, h, late)) in
          (from + k * 30000, omega (arith, lt, le), omega (arith, lt, le), e)),
      (λ s upper lower h.
          let (k, lt, e) = same_step hmac_sha1 secret target time window s le upper lower h in
          rw late (ap some (hit_tries hmac_sha1 secret target (2 * window + 1) from k lt e))),
    )

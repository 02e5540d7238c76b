-- ===== src/Witnesses/Totp.antt =====
-- The theorem on the second factor at a concrete digest.
use fleet_tracking_system.Common.{
  ℕ, ◌+◌, ◌*◌, ◌≤◌, List, [], ◌∷◌, ◌++◌, ◌≡◌, refl, arith, true, some, drop, nat_eq,
}
use fleet_tracking_system.Common.Decimal.{codes}
use fleet_tracking_system.ControlPlane.Totp
use fleet_tracking_system.Protocol.Params.Replies
use fleet_tracking_system.ControlPlane.Totp.{
  base32_encode, base32_decode, six_digits, code_of, totp, tries, verify_totp, step_ms,
}
use fleet_tracking_system.ControlPlane.Totp.Window.{verify_totp_exact}

encode_test : base32_encode (codes "foobar") ≡ codes "MZXW6YTBOI"
unfolding base32_encode Totp.encode_from Totp.groups Totp.char_at
encode_test = refl

decode_test : base32_decode (codes "mzxw 6ytboi==") ≡ codes "foobar"
unfolding base32_decode Totp.decode_from Totp.index_of Totp.to_upper Totp.strip_padding
    Totp.without_spaces Replies.is_space
decode_test = refl

-- A digest that shows the step.
abbrev plain_digest : List ℕ → List ℕ → List ℕ
plain_digest key message = drop 4 message ++ message ++ message ++ 0 ∷ []

verify_totp_exact_example :
    (verify_totp plain_digest (codes "MZXW6") (codes "3") 95000 1 ≡ some true
      → (s : ℕ) × (s ≤ 95000 + 1 * 30000)
        × (95000 ≤ s + 1 * 30000)
        × (totp plain_digest (codes "MZXW6") s ≡ six_digits (codes "3")))
    × ((s : ℕ)
        → s ≤ 95000 + 1 * 30000
        → 95000 ≤ s + 1 * 30000
        → totp plain_digest (codes "MZXW6") s ≡ six_digits (codes "3")
        → verify_totp plain_digest (codes "MZXW6") (codes "3") 95000 1 ≡ some true)
verify_totp_exact_example =
    verify_totp_exact plain_digest (codes "MZXW6") (codes "3") 95000 1 (omega arith)

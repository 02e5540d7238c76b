-- ===== src/ControlPlane/DeviceConfig/Steps.antt =====
-- The steps that the methods of device-config.ts are made of: what has happened when one returns.
use fleet_tracking_system.Common.{
  [], ◌∷◌, ◌++◌, ◌≡◌, refl, sym, ap, arith, true, Option, none, some, Text, nat_eq, Bool-cases, inl,
  inr,
}
use mathlib.Core.Path.{subst}
use fleet_tracking_system.ControlPlane.Http.{Result, ok, err, Exec, ◌>>=◌}
use fleet_tracking_system.ControlPlane.Immobilizer.{Sent, replied, refused, crashed}
use fleet_tracking_system.Protocol.Params.Replies.{set_param_accepted}
use fleet_tracking_system.ControlPlane.DeviceConfig.{
  Outbox, Commander, answer, relay, command_of, require_applied,
}

-- A method that returns has gone through each of its parts.
bound :
    {S A B : Type 0} (r : Result A × S) (f : A → Exec S B) (s s' : S) (b : B)
    → ((λ _. r) >>= f) s ≡ (ok b, s')
    → (a : A) × (t : S) × (r ≡ (ok a, t)) × (f a t ≡ (ok b, s'))
bound (ok a, t) f s s' b h = (a, t, refl, h)
bound (err e, t) f s s' b h = cc

pub bind_ok :
    {S A B : Type 0} (m : Exec S A) (f : A → Exec S B) (s s' : S) (b : B)
    → (m >>= f) s ≡ (ok b, s')
    → (a : A) × (t : S) × (m s ≡ (ok a, t)) × (f a t ≡ (ok b, s'))
bind_ok m f s s' b h = bound (m s) f s s' b h

pub returned_injective :
    {S A : Type 0} (a b : A) (s t : S)
    → ◌≡◌ {A = Result A × S} (ok a, s) (ok b, t)
    → (a ≡ b) × (s ≡ t)
returned_injective a b s t h = (cc, cc)

pub command_of_ok :
    (built : Option Text) (s t : Outbox) (command : Text)
    → command_of built s ≡ (ok command, t)
    → (built ≡ some command) × (t ≡ s)
unfolding command_of
command_of_ok none s t command h = cc
command_of_ok (some c) s t command h = (cc, cc)

pub require_applied_ok :
    (reply : Text) (s t : Outbox)
    → require_applied reply s ≡ (ok tt, t)
    → (set_param_accepted reply ≡ true) × (t ≡ s)
unfolding require_applied
require_applied_ok reply s t h = elim (Bool-cases (set_param_accepted reply)) [
  | inl fine ↦ (fine, sym (ap (λ p. p.1) h))
  | inr bad ↦ (ground (arith, ap (λ p. p.0) h), sym (ap (λ p. p.1) h))
]

pub bind_run :
    {S A B : Type 0} (m : Exec S A) (f : A → Exec S B) (s t : S) (a : A)
    → m s ≡ (ok a, t)
    → (m >>= f) s ≡ f a t
bind_run m f s t a h = ap (λ r. ((λ _. r) >>= f) s) h

pub require_applied_run :
    (reply : Text) (s : Outbox)
    → set_param_accepted reply ≡ true
    → require_applied reply s ≡ (ok tt, s)
unfolding require_applied
require_applied_run reply s h = rw h refl

answer_ok : (sent : Sent) (reply : Text) → answer sent ≡ ok reply → sent ≡ replied reply
unfolding answer
answer_ok (replied a) reply h = cc
answer_ok (refused code msg) reply h = cc
answer_ok (crashed msg) reply h = cc

pub relay_ok :
    (commander : Option Commander) (imei command : Text) (s s' : Outbox) (reply : Text)
    → relay commander imei command s ≡ (ok reply, s')
    → (send : Commander) × (commander ≡ some send)
      × (s' ≡ s ++ (imei, command) ∷ [])
      × (send s' ≡ replied reply)
unfolding relay
relay_ok none imei command s s' reply h = cc
relay_ok (some send) imei command s s' reply h =
    let out = ap (λ p. p.1) h in
    (
      send,
      refl,
      sym out,
      answer_ok (send s') reply (subst (λ o. answer (send o) ≡ ok reply) out (ap (λ p. p.0) h)),
    )

-- ===== src/ControlPlane/Http.antt =====
-- The exceptions of the API's services (the classes of @nestjs/common that they throw), and methods
-- that change what they share and may throw: what was done before a throw stays done.

pub data Fault : Type 0 where
  bad_request unauthorized payment_required forbidden not_found conflict : Fault
  bad_gateway service_unavailable gateway_timeout internal : Fault

pub data Result {ℓ} (A : Type ℓ) : Type ℓ where
  ok : A → Result A
  err : Fault → Result A

abbrev pub Exec : Type 0 → Type 0 → Type 0
Exec S A = S → Result A × S

abbrev continue : {S A B : Type 0} → Result A → (A → Exec S B) → Exec S B
continue (ok a) f s = f a s
continue (err e) f s = (err e, s)

infixl 5 ◌>>=◌ ◌>>◌
abbrev pub ◌>>=◌ : {S A B : Type 0} → Exec S A → (A → Exec S B) → Exec S B
◌>>=◌ m f s = let (r, s') = m s in continue r f s'

abbrev pub ◌>>◌ : {S B : Type 0} → Exec S (Unit {0}) → Exec S B → Exec S B
m >> k = m >>= λ _. k

abbrev pub pure : {S A : Type 0} → A → Exec S A
pure a s = (ok a, s)

abbrev pub throw : {S A : Type 0} → Fault → Exec S A
throw e s = (err e, s)

-- ===== src/ControlPlane/Immobilizer/History.antt =====
-- The history of immobilizer.ts, with InMemoryImmobilizerRepository.events.
use fleet_tracking_system.Common.{
  ℕ, List, [], ◌∷◌, ◌&&◌, text_eq, take, ltb, ◌==◌, nat_eq, if◌then◌else◌,
}
use fleet_tracking_system.ControlPlane.Http.{Exec, ◌>>=◌, ok}
use fleet_tracking_system.ControlPlane.Immobilizer.{ImmobilizerEvent, Store, Env, require_device}

-- The latest event first; events of one time stay in order.
unfoldable pub insert_event : ImmobilizerEvent → List ImmobilizerEvent → List ImmobilizerEvent
insert_event e [] = e ∷ []
insert_event e (f ∷ events) =
    let later = insert_event e events in if ltb e.ts f.ts then f ∷ later else e ∷ f ∷ events

unfoldable pub events_of : ℕ → ℕ → List ImmobilizerEvent → List ImmobilizerEvent
events_of tenant device [] = []
events_of tenant device (e ∷ log) =
    let rest = events_of tenant device log in
    if e.tenant_id == tenant && e.device_id == device then insert_event e rest else rest

unfoldable pub history : Env → ℕ → ℕ → Exec Store (List ImmobilizerEvent)
history env device limit = do
  imei ← require_device env device
  λ s. (ok (take limit (events_of env.tenant_id device s.log)), s)

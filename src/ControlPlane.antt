-- ===== src/ControlPlane.antt =====
-- The API server, services/control-plane/src.
pub mod Http
pub mod ImmobilizerCommand
pub mod Immobilizer
pub mod Auth
pub mod Org
pub mod Billing
pub mod Devices
pub mod Alerts
pub mod Trips
pub mod Users
pub mod Guard
pub mod Telemetry
pub mod Departments
pub mod Realtime
pub mod DeviceCommander
pub mod Notifications
pub mod Positions
pub mod AlertStore
pub mod Vehicles
pub mod Geofences
pub mod StreamBus
pub mod DeviceConfig
pub mod Totp

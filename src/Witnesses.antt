-- ===== src/Witnesses.antt =====
-- Each theorem with hypotheses, applied to concrete values at which they hold.
pub mod Protocol
pub mod Ingestion
pub mod ControlPlane
pub mod Telemetry
pub mod Departments
pub mod Services
pub mod Stream
pub mod Config
pub mod Totp

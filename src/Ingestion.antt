-- ===== src/Ingestion.antt =====
-- The device-facing service, services/ingestion.
pub mod AvlMap
pub mod Dedupe
pub mod Exec
pub mod Records
pub mod Session
pub mod Handlers
pub mod TcpServer
pub mod UdpServer
pub mod AllowList
pub mod Health

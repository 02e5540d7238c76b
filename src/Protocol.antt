-- ===== src/Protocol.antt =====
-- The Teltonika wire protocol, packages/protocol-teltonika: what the server and its tests share.
pub mod Fault
pub mod Reader
pub mod Crc16
pub mod Ascii
pub mod Frame
pub mod Imei
pub mod Codec8
pub mod Codec12
pub mod Udp
pub mod Params

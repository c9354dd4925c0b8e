-- ===== src/Rpc.antt =====
-- crates/ytsaurus-rpc: checksums, GUIDs, bus packets and the row format of the RPC proxy.
pub mod Connection
pub mod Crc64
pub mod Guid
pub mod Packet
pub mod Wire

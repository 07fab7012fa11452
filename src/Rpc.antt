-- ===== src/Rpc.antt =====
-- rpc/ and proto/: the RPC handlers over the services.
pub mod Messages
pub mod UserService
pub mod FileService
pub mod Integrity
pub mod RoundTrip

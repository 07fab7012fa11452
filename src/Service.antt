-- ===== src/Service.antt =====
-- service/: the business operations behind the two RPC services.
pub mod Auth
pub mod Users
pub mod Files
pub mod Instances

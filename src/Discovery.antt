-- ===== src/Discovery.antt =====
-- discovery/: finding healthy instances in Consul, choosing one, and registering one.
pub mod Client
pub mod Endpoints
pub mod RoundRobin
pub mod Registrar

-- ===== src/Congestion.antt =====
-- members/nullnet-server/src/congestion.rs: the controller that limits dedicated networks.
pub mod Pressure
pub mod Bounds
pub mod HostRate
pub mod Controller
pub mod Buckets
pub mod Present
pub mod Hosts
pub mod Admission
pub mod Attempts
pub mod RateLimit
mod Tests

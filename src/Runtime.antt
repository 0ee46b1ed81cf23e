-- ===== src/Runtime.antt =====
-- The two ends of the bridge: the coroutines of an invocation, and the answers of the host.
pub mod Invocation
pub mod HostServer
pub mod GuestClient
pub mod Tests

-- ===== src/Proxy.antt =====
-- The proxy (internal/proxy).
pub mod Pairs
pub mod Flags
pub mod Upstream
pub mod Header
pub mod Udp
pub mod Serve
mod Tests
mod ServeTests

-- ===== src/Firewall.antt =====
-- The firewall agent (internal/firewall).
pub mod Config
pub mod Ports
pub mod Desired
pub mod Policy
pub mod Backend
pub mod Firewalld
pub mod StateFile
pub mod Commands
pub mod Iptables
pub mod Nftables
pub mod Agent
pub mod Start
mod Samples
mod Tests
mod AgentTests
mod StartTests
mod IptablesTests
mod NftablesTests
mod StateFileTests

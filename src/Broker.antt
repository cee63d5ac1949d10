-- ===== src/Broker.antt =====
-- The broker package (packages/broker-go): access control, configurations, the registry, the processes
-- and the proxy behind it, the matching of intents, the catalogs and the broker itself.
pub mod Access
pub mod Transport
pub mod Registry
pub mod SkillCache
pub mod SkillTags
mod Examples
mod Scenarios
mod Suggestions
mod Caching
pub mod Launcher
pub mod Proxy
pub mod Intent
pub mod Core

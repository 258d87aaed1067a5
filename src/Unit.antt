-- ===== src/Unit.antt =====
-- crates/rinit-core/src/unit: the units' own logic.
pub mod Name
pub mod State
pub mod Config
pub mod Parser
pub mod Sandbox
pub mod Cgroup
pub mod Specifiers
pub mod Notify
pub mod Job
pub mod Restart
pub mod Dependency

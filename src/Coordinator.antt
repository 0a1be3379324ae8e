-- ===== src/Coordinator.antt =====
-- update_coordinator.py: what the integration knows of a switch, how it is refreshed, and the
-- commands.
pub mod State
pub mod Refresh
pub mod Commands
pub mod Configuration
pub mod Learning
pub mod Polling
pub mod Parts
pub mod Updating
pub mod Priorities
pub mod PriorityCache
pub mod Consistency
pub mod Updates
pub mod Reachable
pub mod Failure
pub mod PortCache
mod Tests

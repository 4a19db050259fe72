-- ===== src/Collectors.antt =====
-- internal/collectors: a module for each collector.
pub mod Base
pub mod Service
pub mod LogMtime
pub mod Binary
pub mod Slack
pub mod BridgeState
pub mod VoteLogs
pub mod EventLogs
pub mod BridgeRpc
pub mod Metrics
pub mod New

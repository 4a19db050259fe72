-- ===== src/Probes.antt =====
-- The HTTP clients of internal/rpc, internal/binary and internal/slackapi.
pub mod Http
pub mod Rpc
pub mod BinaryHttp
pub mod SlackHttp
pub mod Requests
pub mod Clients

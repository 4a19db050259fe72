-- ===== src/Logtail.antt =====
-- internal/logtail: the polling tailer, by its parts.
pub mod Timestamp
pub mod Drain
pub mod Poll
pub mod Lines
pub mod Partial
pub mod Delivery
pub mod Rotation
pub mod Rotating
pub mod Cancel
pub mod Stamped
pub mod Tailer

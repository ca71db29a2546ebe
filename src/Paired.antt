-- ===== src/Paired.antt =====
-- internal/app/paired.go: one inference that runs on both ranks.
pub mod Payload
pub mod Frames
pub mod Metrics
pub mod Job
pub mod Stream
pub mod Steps
pub mod Tests

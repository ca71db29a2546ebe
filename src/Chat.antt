-- ===== src/Chat.antt =====
-- internal/app/validation.go, tools.go, options.go: what a chat request must be before a rank is asked.
pub mod Request
pub mod Envelope
pub mod Validation
pub mod Limits
pub mod Budget
pub mod Text
pub mod Parts
pub mod Calls
mod Samples
mod Tests

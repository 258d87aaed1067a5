-- ===== src/Control.antt =====
-- crates/rinit-core/src/control.rs: the protocol between rctl and rinit.
pub mod Codes
pub mod Wire
pub mod Requests
pub mod Responses
pub mod Reading
pub mod RoundTrip
pub mod Replies
mod Samples

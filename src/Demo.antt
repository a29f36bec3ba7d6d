-- ===== src/Demo.antt =====
-- src/demo: the endpoints that exercise the foundation.
pub mod Work
pub mod Trusted
pub mod Notes
pub mod Listing
pub mod Basics
pub mod Spans
pub mod Reports
pub mod Stored

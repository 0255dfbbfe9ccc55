-- ===== src/Triggers/Policy.antt =====
-- internal/engine/triggers/policy.go: trigger-delivery policies.
pub mod Handler
pub mod Overlap
pub mod Compile
pub mod Decide
mod Tests

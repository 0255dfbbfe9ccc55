-- ===== src/Triggers.antt =====
-- internal/engine/triggers: delivery policies, the names of device errors, and the conditions of triggers.
pub mod Policy
pub mod ErrorName
pub mod Value
pub mod Condition
pub mod Match

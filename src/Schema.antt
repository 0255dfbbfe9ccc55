-- ===== src/Schema.antt =====
-- pkg/interfaceschema: interface definitions, from the decoded document to the compiled form.
pub mod Types
pub mod Endpoint
pub mod Definition
pub mod Unique
pub mod Trie
pub mod Compile
pub mod Build
pub mod Upgrade
pub mod Tests

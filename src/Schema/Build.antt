-- ===== src/Schema/Build.antt =====
-- pkg/interfaceschema/parse.go and violations.go: from a decoded document to a validated interface.
-- The decoder and the encoder of encoding/json are not modelled here: a decoded document is a
-- `RawInterface`, in which `none` is a nil pointer.
pub mod Raw
pub mod Mapping
pub mod Object
pub mod Whole

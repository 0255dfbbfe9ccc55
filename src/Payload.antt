-- ===== src/Payload.antt =====
-- pkg/payload: the format of an inbound payload.
pub mod Sniff

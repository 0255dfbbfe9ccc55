-- ===== src/Broker.antt =====
-- internal/broker: who may publish and read which topics.
pub mod Acl

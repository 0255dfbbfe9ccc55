-- ===== src/Tests.antt =====
-- Sample devices, tokens and payloads; conditions of triggers; batches; the token cache.
mod Devices
mod Conditions
mod Batches
mod Tokens

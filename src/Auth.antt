-- ===== src/Auth.antt =====
-- internal/auth: how a token is verified, how verified tokens are kept, and what they authorize.
pub mod Claims
pub mod Verify
pub mod Cache

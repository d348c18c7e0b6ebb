-- ===== src/Auth.antt =====
-- The package backend/internal/auth.
pub mod Limiter
pub mod Store
pub mod Manager

-- ===== src/App.antt =====
-- The package backend/internal/app.
pub mod References
pub mod Images
pub mod Removal
pub mod Tasks

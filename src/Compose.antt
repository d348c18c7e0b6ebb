-- ===== src/Compose.antt =====
-- The package backend/internal/compose.
pub mod Identifier
pub mod Guard
pub mod Runner
pub mod Keys
pub mod Editor
pub mod Workspace

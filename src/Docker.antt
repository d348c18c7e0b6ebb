-- ===== src/Docker.antt =====
-- The package backend/internal/docker.
pub mod Logs
pub mod Usage

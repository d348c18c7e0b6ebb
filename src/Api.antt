-- ===== src/Api.antt =====
-- The HTTP interface of backend/internal/api: what each request may do, and what it is answered.
pub mod Answers
pub mod Accounts
pub mod Gate
pub mod Service
pub mod Handlers
pub mod Routes
mod Tests

-- ===== src/Core.antt =====
-- src/backend/core.
pub mod Config
pub mod Http
pub mod Security

-- ===== src/Designer/Claude.antt =====
-- src/backend/services/claude_api.py: offers written by Claude.
pub mod Cache
pub mod Retry
pub mod Parse
pub mod Service

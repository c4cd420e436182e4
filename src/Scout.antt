-- ===== src/Scout.antt =====
-- The Scout layer: it scores purchase events and asks the Designer for an offer.
pub mod Scoring
pub mod Constraints
pub mod Events
pub mod ServiceAuth
pub mod Notification
pub mod Webhook
pub mod Routes
pub mod Overlap

-- ===== src/Models.antt =====
-- The pydantic models of src/backend/models.
pub mod Offer
pub mod Purchase
pub mod Validation

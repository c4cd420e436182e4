-- ===== src/Designer.antt =====
-- The Designer layer of src/backend: services and handlers.
pub mod Claude
pub mod Fraud
pub mod HubClient
pub mod Inventory
pub mod Routes
pub mod Api

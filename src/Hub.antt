-- ===== src/Hub.antt =====
-- The Hub layer: the store of offers, its routes, its audit log and the expiry sweep.
pub mod Store
pub mod Audit
pub mod Api
pub mod Routes
pub mod Change
pub mod Sweep
pub mod Told
pub mod Trail

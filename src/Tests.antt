-- ===== src/Tests.antt =====
-- Runs of the program on sample data, and each theorem at an input that meets its conditions.
mod Data
mod AuditLog
mod Scout
mod Requests
mod Hub
mod Redis
mod SampleClaude
mod Claude
mod Designer
mod Inventory
mod Purchases
mod System
mod Overlap
mod Trail

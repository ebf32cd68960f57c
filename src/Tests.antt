-- ===== src/Tests.antt =====
-- Runs of the operations at concrete inputs.
pub mod Data
pub mod Ledger
pub mod Status
pub mod Tree
pub mod Cameras
pub mod Desk
pub mod Requests
pub mod Policies
pub mod Talk
pub mod Gates
pub mod Listings

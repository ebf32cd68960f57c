-- ===== src/Engine.antt =====
-- The camera engine's way into the attendance ledger: backend/app/engine/attendance_generator.py
-- and backend/app/engine/attendance_sync.py.
pub mod Generator
pub mod Sync
pub mod Verifier

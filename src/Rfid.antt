-- ===== src/Rfid.antt =====
-- Readers, cards and taps: backend/app/services/rfid_service.py.
pub mod Tables
pub mod Readers
pub mod Cards
pub mod Taps

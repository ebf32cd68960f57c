-- ===== src/Attendance.antt =====
-- The attendance ledger: backend/app/services/attendance_service.py over the tables of
-- backend/app/models/attendance.py. The state is the table of records with the in-process cache of
-- recent punches; each entry point returns the new state and the record, or raises.
pub mod Tables
pub mod Status
pub mod Duplicates
pub mod Queries
pub mod Process

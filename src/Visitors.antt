-- ===== src/Visitors.antt =====
-- Visits: backend/app/services/visitor_service.py and the rows of backend/app/models/visitor.py
-- that its lifecycle reads or writes. The clock's reading is an argument, and so is the answer of
-- the face service to an enrolment. Texts come with their white space already stripped.
pub mod Tables
pub mod Visits
pub mod Registration
pub mod Lifecycle
pub mod Arrivals

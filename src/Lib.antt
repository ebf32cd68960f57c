-- ===== src/Lib.antt =====
-- A verification of the attendance backend under backend/app: the ledger of punches, the
-- organization tree that bounds every tenant, the camera events that flow into the ledger, the
-- lifecycle of visits, the chat, readers and cards, and the hub of realtime events.
--
-- The parts and their files. Prelude holds what all share: Boolean tests and lists over the
-- native numbers, signed integers (Prelude/Int) and fallible results with the errors that the
-- services raise (Prelude/Errors).
--
-- Clock is backend/app/core/timeutil.py with `_as_utc`: an instant is the count of microseconds
-- since the year 1, a datetime an instant with a flag for its awareness; the timezone database is
-- the parameter `Zone`.
--
-- Tenant is backend/app/middleware/tenant.py and the columns of
-- backend/app/models/organization.py. A recursive query is `walk`, which joins level after level,
-- at most 64 times, as the depth column of the query does; cycles in the table therefore end.
-- `climb` is the loop of `ancestor_chain`, which sees a new row each round, so a fuel of the
-- number of rows and one is enough.
--
-- Attendance is backend/app/services/attendance_service.py. Tables has the rows; Status derives
-- status and minutes; Duplicates is the fast path in the process and in Redis; Queries selects
-- the shift, the policy and the day's record and creates it. What the database does meanwhile is
-- the input `Interference`: the rows that rival transactions commit between the select and the
-- flush, and whether the constraints of the written rows hold. A failed insert ends as SQLAlchemy
-- documents: `begin_nested` flushes before it sets the savepoint, so the transaction is rolled
-- back, the new row leaves the session, and `expunge` of it raises. Process holds
-- `process_recognition`, `process_rfid_tap` and `apply_manual_attendance`. A call reads the
-- clock, Redis and the database through the record `Call`. The state is the record `Ledger`: the
-- rows, and the marks of recent punches.
--
-- Organizations is backend/app/services/organization_service.py on a table of organizations; each
-- operation answers with the new table or the error that is raised. Ids of new rows come from the
-- database.
--
-- Engine is backend/app/engine/attendance_generator.py (Generator) and
-- backend/app/engine/attendance_sync.py (Sync). The consumer calls `process_recognition` for each
-- event of a batch; what the commit of each event answers, and whether the task is cancelled at it,
-- is the input `Turn`. The organization of a camera's stream and Python's `int` on an identity are
-- parameters.
--
-- Visitors is backend/app/services/visitor_service.py with the columns of
-- backend/app/models/visitor.py that the lifecycle uses, Realtime is backend/app/realtime/hub.py,
-- and Shifts is the policies, assignments, holidays and leave of
-- backend/app/services/shift_service.py.
--
-- RateLimit is backend/app/core/rate_limit.py, with what Redis answers as an input, and Pagination is
-- backend/app/core/pagination.py.
--
-- Chat is backend/app/services/chat_service.py on the rows of backend/app/models/chat.py. Tables has
-- the rows, and the events that have gone out; Access the lookups, the roles and the shared writes;
-- Members the conversations and who is in them; Messages sending, editing, deleting, reacting and
-- the pages of a history; Reading the marks and the unread counts; Calls the signals of calls and
-- their line of history. Steps takes the operations as calls that run one after the other, each in
-- a transaction that an exception rolls back; a direct conversation that a rival creates meanwhile
-- is an argument of `get_or_create_direct`. A walk through the pages takes one page more than there
-- are messages as its fuel, since every page but the last has a message.
--
-- Rfid is backend/app/services/rfid_service.py on the rows of backend/app/models/rfid.py: Readers,
-- Cards, and Taps, which punch through `process_rfid_tap` of Attendance. Python's `str.upper` is a
-- parameter. The loop over the suffixes of a device id has one round more than there are readers as
-- its fuel, since the candidates differ.
--
-- Engine/Verifier is backend/app/engine/identity_verifier.py, with confidences of any type.
--
-- Tests runs the operations at concrete inputs.
--
-- Not modelled: routes and schemas, the recognition models and image processing, which compute in
-- floating point, reports and exports, and the infrastructure. Anomalies, the cache, and the
-- listings of conversations, channels, contacts, readers, shifts and holidays are left out too.
-- Log lines, the audit trail and the serialization of answers are left out, and so are
-- the columns that no modelled code reads.
pub mod Prelude
pub mod Clock
pub mod Tenant
pub mod Attendance
pub mod Organizations
pub mod Engine
pub mod Visitors
pub mod Realtime
pub mod Shifts
pub mod RateLimit
pub mod Chat
pub mod Rfid
pub mod Pagination
pub mod Tests

-- ===== src/Client.antt =====
-- A request to the model's provider and its account: radar/client.py, radar/request_accounting.py and
-- repositories/radar_request_repository.py.
pub mod Model
pub mod Accounting
pub mod Calls
pub mod Quiet
pub mod Ends
pub mod Submissions
pub mod Recorded
pub mod Accounted
pub mod Tests

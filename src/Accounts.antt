-- ===== src/Accounts.antt =====
-- Staff, departments and who manages whom: accounts/models.py and the traversal of the reporting
-- lines in tasks/services/access.py.
pub mod Data
pub mod Hierarchy
pub mod Staffing

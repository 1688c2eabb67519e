-- ===== src/Tasks.antt =====
-- Tasks: the models of tasks/models.py and the services of tasks/services/.
pub mod Data
pub mod Access
pub mod Visibility
pub mod Validation
pub mod Effects
pub mod Reminders
pub mod Lifecycle
pub mod Batches
pub mod Services
pub mod Samples

-- ===== src/Notifications.antt =====
-- The notification outbox: notifications/services/delivery.py and scheduling.py over the models of
-- notifications/models.py and the enumerations of notifications/constants.py.
pub mod Data
pub mod Delivery

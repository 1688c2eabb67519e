-- ===== src/Procurement.antt =====
-- Requests of clients, from the purchase of goods to their acceptance.
pub mod Fulfilment

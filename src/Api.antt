-- ===== src/Api.antt =====
-- apps/api/src: the HTTP service. Its database is a record of the rows that the model needs.
pub mod Subscription
pub mod Settle
pub mod CardTransfer
pub mod Idempotency

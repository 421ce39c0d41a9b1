-- ===== src/Billing.antt =====
-- packages/billing-core and the settlement code of apps/api/src/services.
pub mod Money
pub mod Period
pub mod Reconcile
pub mod Destination
pub mod Gateway

-- ===== src/Detection.antt =====
-- backend/app/detection: alerts, controls, and the severity of an incident.
pub mod Severity
pub mod Alerts
pub mod Reconcile
pub mod Controls
pub mod Samples

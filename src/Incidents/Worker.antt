-- ===== src/Incidents/Worker.antt =====
-- internal/incidents/worker.go: records of the log go to the engine, and due jobs to the notifier.
pub mod Notices
pub mod Dispatch
pub mod Drains
pub mod Reconcile

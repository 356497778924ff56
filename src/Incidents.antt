-- ===== src/Incidents.antt =====
-- internal/incidents: connectivity incidents from router logs, and the worker that reports them.
pub mod Types
pub mod Classify
pub mod Jobs
pub mod Due
pub mod Advance
pub mod Observe
pub mod Consistent
pub mod Kept
pub mod Service
pub mod Rebuild
pub mod Worker

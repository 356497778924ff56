-- ===== src/Api.antt =====
-- internal/api: the server's answers to the browser's requests.
pub mod Query
pub mod Messages
pub mod Incidents
pub mod Import

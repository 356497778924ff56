-- ===== src/Tests.antt =====
-- The theorems at concrete inputs, and runs of the definitions.
pub mod Engine
pub mod Worker
pub mod Live
pub mod Import
pub mod Listed
pub mod Storage
pub mod Files
pub mod Page
pub mod View

-- ===== src/Frontend.antt =====
-- frontend/src: the browser application.
pub mod Types
pub mod Api
pub mod Hosts
pub mod Live
pub mod Labels
pub mod App
pub mod Html
pub mod View

-- ===== src/Frontend/View.antt =====
-- What the component `App` of frontend/src/App.tsx returns, and what it takes from the browser.
pub mod Texts
pub mod Incidents
pub mod Toolbar
pub mod Messages
pub mod Allowed
pub mod Shown

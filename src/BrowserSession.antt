-- ===== src/BrowserSession.antt =====
-- sidecar/internal/browsersession: screenshots, ports and browsers.
pub mod Screenshots
pub mod Shots
pub mod Clearing
pub mod Ports
pub mod Reports
pub mod Browsers
pub mod Instances
mod Tests

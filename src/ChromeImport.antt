-- ===== src/ChromeImport.antt =====
-- sidecar/internal/chromeimport: cookies and bookmarks taken over from Chrome.
pub mod Cookies
pub mod Padding
pub mod Bookmarks
pub mod Profiles
pub mod Merge
mod Tests

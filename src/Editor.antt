-- ===== src/Editor.antt =====
-- sidecar/internal/editorintegration and editor_methods.go: the editors that open the files of a
-- workspace.
pub mod Args
pub mod Templates
pub mod Prefs
pub mod Choices
pub mod Kept
pub mod Detect
pub mod Contain
pub mod Invoke
mod Tests

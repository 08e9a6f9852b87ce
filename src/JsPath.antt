-- ===== src/JsPath.antt =====
-- The path module of the JavaScript runtime, pkg/jsruntime/path/path.go.
pub mod Windows
pub mod Extension
pub mod Parts
mod Tests

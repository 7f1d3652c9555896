-- ===== src/Osd.antt =====
-- The OSD library: osd/src/main/jni.
mod Tests
pub mod Load
pub mod Glyphs
pub mod Frame
pub mod Argb
pub mod Nv12
pub mod Whole
pub mod Handle

-- ===== src/Rtmp.antt =====
-- The RTMP library: librtmp/src/main/jni.
pub mod Load
pub mod Wire
pub mod Util
pub mod Handle
pub mod Broadcast
pub mod Threads
pub mod Whole
mod Tests

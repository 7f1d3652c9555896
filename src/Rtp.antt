-- ===== src/Rtp.antt =====
-- jrtp/src/main/jni: the RTP sender and receiver over JRTPLIB, and their JNI handles.
pub mod Load
pub mod Common
pub mod Callback
pub mod Session
pub mod Sender
pub mod Receiver
pub mod Handle
pub mod Network
pub mod Whole
mod Tests

-- ===== src/Rtp/Tests.antt =====
-- Runs of the sender and the receiver, and the theorems at concrete inputs.
mod Sending
mod Receiving
mod Whole

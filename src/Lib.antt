-- ===== src/Lib.antt =====
-- Jrtplib4Android: the native code that sends and receives video over RTP (jrtp/src/main/jni) and
-- pushes it over RTMP (librtmp/src/main/jni), and draws the time into pictures (osd/src/main/jni).
--
-- A Java program holds handles. A handle of RtpHandle.cpp has a sender (RtpSender.cpp), which cuts
-- NAL units of H.264 into RTP packets, a receiver (RtpReceiver.cpp), which puts RTP payloads together
-- to frames of a program stream and hands their video to a listener, or both. A handle of
-- RtmpHandle.cpp has an object of RtmpUtil.cpp, which wraps NAL units, parameter sets and FLV tags
-- into RTMP packets. The libraries below them, JRTPLIB and librtmp, and the Java virtual machine are
-- not modelled: a state holds the calls made so far, the newest first, and a parameter (`Answer`,
-- `Library`) gives the status of a call from them.
--
-- - Prelude: lists, numbers, C's `int`, bit operations as arithmetic, and buffers as lists of bytes.
--   A read or a write outside a buffer is `none`, a fault: what C leaves undefined is never a result.
-- - Jni: what the handles call of the Java virtual machine and of the mutex, and when loans are given
--   back; Jni/Load: native methods and the machine that loads a library; Jni/Tables holds the tables of
--   the three libraries, Rtp/Load, Rtmp/Load and Osd/Load, against the Java classes.
-- - Rtp/Common: `CheckError`, `make8Bit`, `changeIP` of RtpCommon.cpp.
-- - Rtp/Session: the calls of JRTPLIB and Java, and the address of a source.
-- - Rtp/Callback: `SendCallback` and `ReceiveCallback`, the look-up of the listener's methods.
-- - Rtp/Sender: `CRTPSender`. Its fields are in State, packets in Packet, `SendH264Nalu` and
--   `SendRtpData` in Send; Reader is a reader of FU-A that is independent of the code. The loop over
--   the fragments recurs on the number of full fragments that are left.
-- - Rtp/Receiver: `CRTPReceiver`. PStream is `GetH246FromPs` with the functions it calls; its loop
--   takes as fuel the length of the frame and one more, and each round takes some of the frame.
--   Assemble is `processRtpPacket`, with `psBuf` as a list of all its bytes; Assemble/Buffer and
--   Assemble/Progress are about any packets, Assemble/Stream about those of a stream. PStream/Code writes
--   program streams, independently of the code. Destinations is about the sources that come and go.
-- - Rtp/Handle: RtpHandle.cpp. Loans is about the arrays of `sendByte_`; Delivery sends units through
--   a handle, from its set-up to its end.
-- - Rtp/Network: from the sender's trace to the packets that a receiver gets, over a network that is a
--   parameter: it loses nothing, keeps the order, and writes the headers. Network/Sent follows payloads
--   through `sendByte_`, Network/Frames the frames that they make up, Rtp/Whole both ends.
-- - Rtmp/Wire: the byte-order macros of RtmpUtil.h.
-- - Rtmp/Util: `RtmpUtils`. Avc, Avc/Sets and Flv read what it sends, Flv/Tag writes tags; Life is about
--   the order of calls; File is `pushFlvFile`, whose loop takes as fuel the length of the file and one
--   more, and each round takes eleven bytes at least. File/Tags says what a well-formed file is, Plays
--   what was sent; Stream, Rounds and Complete follow the loop through such a file.
-- - Rtmp/Handle: RtmpHandle.cpp with its mutex. Rtmp/Broadcast and Broadcast/Begin are about the steps
--   of a broadcast with a library where every call succeeds, Rtmp/Whole about all of it.
-- - Rtmp/Threads: the steps of threads that call RtmpHandle.cpp on one object at the same time; a
--   push reads the object when it gets the mutex, and stores what it makes of it when it gives the mutex
--   back. A release takes no mutex: where it overlaps with a push at work the step is a fault, and so is
--   a push or a release that finds the object deleted; steps end with the first fault. Threads/Guards and
--   Threads/Serial are about all orders of such steps.
-- - Osd/Glyphs: of the OSD (osd/src/main/jni/YuvUtils.cpp) the pictures of the time mark, the table
--   that `initOsd` makes of them, `getIndex` and `releaseOsd`.
-- - Osd/Frame: `addOsd`. A frame is a list of bytes; the nested loops of a turn are `walk`s that count
--   their rounds. Picture says what a frame shows, by column and row; Fills and Blocks are about the
--   bytes that loops write, Turn, Straight and Angles about the turns, Mark, Drawn, Marked and Shown
--   about the mark.
-- - Osd/Argb: the three conversions of bitmaps, one loop for NV21 and NV12 with the order of the
--   colours as a parameter. What `malloc` returns is a parameter, bytes of any value.
--   Argb/Frames is about even widths and heights, Argb/Odd about odd ones.
-- - Osd/Nv12: `nv21ToNv12`. Osd/Handle: YuvOsdUtils.cpp, with Loans for the arrays. Osd/Whole puts
--   all of it together.
--
-- Lengths, offsets and frame sizes are natural numbers where the code's `int` is not negative by its
-- callers, and the `int` that can be negative (`buflen`, a payload length, a colour before it is
-- clamped) is an integer; no product of frame sizes is large enough to wrap. Counters and packet
-- lengths wrap as their types do. The arrays that `addOsd` reads and writes are distinct. The numbers
-- of a `Setup` are what `inet_addr` and the conversion to `uint16_t` make of Java's arguments. What a
-- caller finds where `SendH264Nalu` ends without a value is a parameter of `sendByte_`. Of the virtual
-- machine the model has the calls, in their order, and the elements that it lends; that a new array may
-- be refused for want of memory, and logging, are not modelled.
pub mod Prelude
pub mod Jni
pub mod Osd
pub mod Rtmp
pub mod Rtp

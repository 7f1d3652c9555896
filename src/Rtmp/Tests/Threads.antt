-- ===== src/Rtmp/Tests/Threads.antt =====
-- Two threads that push at the same time.
use jrtplib4android.Prelude.{refl, true, false, some, none, [], ◌∷◌, replicate}
use jrtplib4android.Prelude.Int.{pos}
use jrtplib4android.Prelude.Bytes.{slice, blit}
use jrtplib4android.Rtmp.Util.State.{RtmpUtils, Packet, send_packet, is_connected, tell}
use jrtplib4android.Rtmp.Util.{push_h264_data, send}
use jrtplib4android.Rtmp.Handle.{under_lock, push_h264_handle}
use jrtplib4android.Rtmp.Threads.{
  Push, nal_unit, Threads, outside, waits, works, start, goes, call, lock, unlock, delete_at_work,
  release_at_work, Reaches, here, next,
}
use jrtplib4android.Rtmp.Tests.{willing, sound}

abbrev key : Push
key = nal_unit (record { ref = 7; elements = some (0x65 ∷ []) }) true

abbrev other_unit : Push
other_unit = nal_unit (record { ref = 8; elements = some (0x41 ∷ []) }) false

abbrev sent : Packet
sent = record {
  has_abs_timestamp = 1;
  channel = 0x04;
  info_field2 = 1;
  header_type = 0;
  time_stamp = 0;
  packet_type = 0x09;
  body_size = 10;
  body = 0x17 ∷ 1 ∷ 0 ∷ 0 ∷ 0 ∷ 0 ∷ 0 ∷ 0 ∷ 1 ∷ 0x65 ∷ replicate 54 0;
}

abbrev pushed : RtmpUtils
pushed =
    tell (send_packet sent)
      (tell is_connected (record sound { packet = some sent; timestamp = 40 }))

-- The first is done, the second works.
abbrev both : Threads
both = record {
  object = some pushed;
  gone = none;
  owner = some 2;
  place = goes 2 (works other_unit pushed) (
      goes 1 outside
        (goes 1 (works key sound) (goes 2 (waits other_unit) (goes 1 (waits key) (λ t. outside)))));
  finished = key ∷ [];
  answers = pos 0 ∷ [];
  fault = none;
}

both-Reaches : Reaches willing (start sound) both
unfolding push_h264_handle under_lock push_h264_data send slice blit
both-Reaches =
    next
      (next
        (next (next (next here refl (call 1 key refl)) refl (call 2 other_unit refl)) refl
          (lock 1 key sound refl refl refl))
        refl (unlock 1 key sound pushed (pos 0) refl refl))
      refl (lock 2 other_unit pushed refl refl refl)

-- A third thread releases the object on which the second one works: nothing makes it wait.
release_run : Reaches willing (start sound) (record both { fault = some release_at_work })
release_run = next both-Reaches refl (delete_at_work 3 2 refl refl)

-- ===== src/Rtmp/Tests.antt =====
-- Runs of the RTMP library, and the theorems at concrete inputs.
mod Files
mod Threads
use jrtplib4android.Prelude.{
  length, ℕ, ◌+◌, ◌^◌, ◌%◌, ◌≡◌, ◌≢◌, refl, Bool, true, false, Option, none, some, List, [], ◌∷◌,
  ◌++◌, arith, replicate, length-replicate, inr, ◌≤◌, ◌<◌, ◌⊎◌,
}
use jrtplib4android.Prelude.Int.{ℤ, pos}
use jrtplib4android.Rtmp.Util.State.{
  packet_free, free, close, alloc, Call, RtmpUtils, Packet, Library, IsLibrary,
}
use jrtplib4android.Rtmp.Util.{init_rtmp_handle, send, push_h264_data, push_flv_data}
use jrtplib4android.Rtmp.Util.Avc.{sent_bytes, read_config, read_nalu, push_h264-read}
use jrtplib4android.Rtmp.Util.Flv.Tag.{tag}
use jrtplib4android.Rtmp.Util.Flv.{counted, push_flv_data_lem}
use jrtplib4android.Rtmp.Util.Life.{
  IsSound, allocs, frees, here, next, set_up, handle, Reaches-IsSound,
}
use jrtplib4android.Rtmp.Util.File.{Loop, push_tags, spent}
use jrtplib4android.Rtmp.Util.File.Total.{push_tags-total}
use jrtplib4android.Jni.{
  HostCall, Object, lock, unlock, get, release, byte_elements, GivesBack, get_all, release_all,
}
use jrtplib4android.Rtmp.Handle.{
  Array, under_lock, push_sps_pps_handle, push_h264_handle, push_flv_handle, init_handle,
  push_flv_file_handle, release_handle,
}
use jrtplib4android.Rtmp.Handle.Guarded.{IsKept, mutex_is, pushes-IsKept}
use jrtplib4android.Rtmp.Broadcast.{Unit264, array, push_units, sent_packets, Plays}
use jrtplib4android.Rtmp.Whole.{broadcast-received}

-- A packet with nothing in it and room for so many bytes.
abbrev room_for : ℕ → Packet
room_for n = record {
  has_abs_timestamp = 0;
  channel = 0;
  info_field2 = 0;
  header_type = 0;
  time_stamp = 0;
  packet_type = 0;
  body_size = 0;
  body = replicate n 0;
}

-- A library where every call succeeds at time 0.
abbrev willing : Library
willing = record {
  answer = λ calls. true;
  clock = λ calls. 0;
  stream_id = 1;
  reset = λ p. p;
  allocated = room_for;
}

willing-IsLibrary : IsLibrary willing
willing-IsLibrary = record {
  reset-body = λ p. refl;
  allocated-room = λ n. length-replicate {A = ℕ} n 0;
}

abbrev fresh : RtmpUtils
fresh = record {
  is_init = false;
  rtmp = false;
  packet = none;
  count = 0;
  timestamp = 0;
  calls = [];
}

abbrev ready : RtmpUtils
ready = record fresh { is_init = true; rtmp = true; packet = some (room_for 64) }

fresh-IsSound : IsSound fresh
fresh-IsSound = ground arith

push_h264_example :
    (q : Packet) × (read_nalu (sent_bytes q) ≡ some (true, 0x65 ∷ 1 ∷ []))
    × (q.time_stamp ≡ ready.timestamp % 2 ^ 32)
    × (length q.body ≡ length (room_for 64).body)
    × (push_h264_data willing (0x65 ∷ 1 ∷ []) 2 true ready
        ≡ some (send willing q (record ready { timestamp = ready.timestamp + 40 })))
push_h264_example =
    push_h264-read willing (0x65 ∷ 1 ∷ []) true ready (room_for 64) willing-IsLibrary refl
      (omega arith) (omega arith)

abbrev url : Object
url = record { ref = 1; elements = [] }

abbrev two_units : List Unit264
two_units =
    record { ref = 4; nalu = 0x65 ∷ 1 ∷ []; is_key = true }
    ∷ record { ref = 5; nalu = 0x41 ∷ []; is_key = false }
    ∷ []

broadcast_example :
    (v w after last : RtmpUtils) × (began set later : List HostCall) × (c : Packet) × (qs : List
      Packet)
    × (init_handle willing url fresh [] ≡ (some v, began))
    × (push_sps_pps_handle willing
          (some v)
          (array 2 (0x67 ∷ 66 ∷ 0 ∷ 31 ∷ []))
          4
          true
          (array 3 (0x68 ∷ []))
          1
          began
        ≡ some (pos 0, some w, set))
    × (push_units willing two_units w set ≡ some (after, later))
    × (release_handle (some after) ≡ some last)
    × (sent_packets after.calls ≡ c ∷ qs)
    × (read_config (sent_bytes c) ≡ some (66 ∷ 0 ∷ 31 ∷ [], 0x67 ∷ 66 ∷ 0 ∷ 31 ∷ [], 0x68 ∷ []))
    × (c.time_stamp ≡ 0)
    × Plays 0 two_units qs
    × (mutex_is false later ≡ true)
    × GivesBack [] later
    × (last.is_init ≡ false)
    × (last.packet ≡ none)
    × (last.calls ≡ packet_free ∷ free ∷ close ∷ after.calls)
    × (allocs last.calls ≡ frees last.calls)
broadcast_example =
    broadcast-received willing url fresh 0x67 66 0 31 2 3 [] (0x68 ∷ []) two_units []
      willing-IsLibrary (λ calls. refl) refl fresh-IsSound refl (omega arith) (omega arith)
      (omega arith) (omega arith, (omega arith, tt)) refl

push_flv_data_example :
    ((11 ≤ 11)
      × (17 ≤ length (room_for 64).body)
      × (q : Packet) × (sent_bytes q ≡ 1 ∷ 2 ∷ [])
      × (q.packet_type ≡ 9)
      × (q.time_stamp ≡ 70000)
      × (push_flv_data willing
            (tag 9 70000 (1 ∷ 2 ∷ []) (0 ∷ 0 ∷ 0 ∷ 13 ∷ []) ++ replicate 11 0)
            17
            ready
          ≡ some (send willing q (counted ready))))
    ⊎ (((11 < 11) ⊎ (length (room_for 64).body < 17))
        × (push_flv_data willing
              (tag 9 70000 (1 ∷ 2 ∷ []) (0 ∷ 0 ∷ 0 ∷ 13 ∷ []) ++ replicate 11 0)
              17
              ready
            ≡ none))
push_flv_data_example =
    push_flv_data_lem willing 9 70000 (1 ∷ 2 ∷ []) (0 ∷ 0 ∷ 0 ∷ 13 ∷ []) (replicate 11 0) ready
      (room_for 64) (inr refl) (omega arith) (omega arith) refl refl

-- A file of one tag behind the 13 bytes of its head.
abbrev one_tag : Loop
one_tag = record {
  content = replicate 13 0 ++ tag 9 0 (0x17 ∷ 1 ∷ []) (0 ∷ 0 ∷ 0 ∷ 13 ∷ []);
  at = 13;
  type = 0;
  data_length = 0;
  time_stamp = 0;
  packet = room_for 64;
  calls = [];
}

push_tags_example : push_tags willing 0 31 one_tag ≢ spent
push_tags_example = push_tags-total willing 0 31 one_tag (omega arith)

Reaches-IsSound_example : IsSound ((init_rtmp_handle willing [] fresh).1)
unfolding handle
Reaches-IsSound_example =
    Reaches-IsSound {library = willing} {u = fresh} (next (set_up []) here refl) fresh-IsSound

abbrev sound : RtmpUtils
sound = record ready { calls = alloc ∷ [] }

abbrev kept : ℤ × Option RtmpUtils × List HostCall
kept = (pos 0, some sound, unlock ∷ lock ∷ [])

pushes-IsKept_example :
    ((sps : Array) (n : ℕ) (has_pps : Bool) (pps : Array) (m : ℕ)
      → push_sps_pps_handle willing (some sound) sps n has_pps pps m [] ≡ some kept
      → IsKept [] kept)
    × ((buf : Array) (is_key : Bool)
        → push_h264_handle willing (some sound) buf is_key [] ≡ some kept
        → IsKept [] kept)
    × ((buf : Array) (behind : List ℕ)
        → push_flv_handle willing (some sound) buf behind [] ≡ some kept
        → IsKept [] kept)
    × ((url : Object) (u : RtmpUtils)
        → let after = (init_handle willing url u []).1 in
          (mutex_is false after ≡ true) × GivesBack [] after)
    × ((url path : Object) (files : List ℕ → Option (List ℕ)) (ret : ℤ) (sent : List Call)
          (after : List HostCall)
        → push_flv_file_handle willing url path files [] ≡ some (ret, sent, after)
        → (mutex_is false after ≡ true) × GivesBack [] after)
pushes-IsKept_example = pushes-IsKept willing (some sound) [] kept (ground arith) refl

-- A push through a handle takes the mutex and the array, and gives both back.
push_run :
    elim (push_flv_handle willing (some sound) (record { ref = 7; elements = none }) [] []) [
      | none ↦ []
      | some r ↦ r.2
    ]
    ≡ unlock ∷ release (byte_elements 7) ∷ get (byte_elements 7) ∷ lock ∷ []
unfolding push_flv_handle under_lock get_all release_all
push_run = refl

-- ===== src/Rtmp/Util.antt =====
-- librtmp/src/main/jni/RtmpUtil.cpp: the object `RtmpUtils`, which pushes FLV and H.264 data to a
-- server. Its fields and the library it calls are in `State`; `pushFlvFile` is in `File`.
pub mod State
pub mod Avc
pub mod Flv
pub mod Life
pub mod File
use jrtplib4android.Prelude.{
  ℕ, ◌+◌, ◌*◌, ◌-◌, ◌/◌, ◌%◌, ◌^◌, bit_and, Bool, true, false, Option, none, some, List, ◌∷◌, ◌++◌,
  ltb, ◌==◌, ◌||◌, not, if◌then◌else◌, get_elem?,
}
use jrtplib4android.Prelude.Int.{ℤ, pos, negsuc}
use jrtplib4android.Prelude.Bytes.{◌>>=◌, slice, blit}
use jrtplib4android.Rtmp.Wire.{hton24, hton_time, store}
use State.{
  RtmpUtils, Packet, Library, alloc, setup_url, enable_write, connect, connect_stream, is_connected,
  send_packet, close, free, packet_free, tell, empty_packet, prepare,
}

-- A byte of an `int`, as `(n >> k) & 0xff`.
abbrev pub byte_of : ℕ → ℕ → ℕ
byte_of k n = bit_and (n / 2 ^ k) 0xFF

-- What a call returns and leaves, or a fault.
abbrev pub Result : Type 0
Result = Option (ℤ × RtmpUtils)

module _ (library : Library) where
  -- The status of a call that is made.
  abbrev pub status : RtmpUtils → Bool
  status u = library.answer u.calls

  -- `initRtmpHandle`
  unfoldable pub init_rtmp_handle : List ℕ → RtmpUtils → ℤ × RtmpUtils
  init_rtmp_handle url u =
      if u.is_init
      then (negsuc 3, u)
      else let set_up = tell (setup_url url) (tell alloc (record u { rtmp = true })) in
        let connected = tell connect (tell enable_write set_up) in
        let streaming = tell connect_stream connected in
        if not (status set_up)
        then (negsuc 0, tell free set_up)
        else if not (status connected)
        then (negsuc 1, tell free connected)
        else if not (status streaming)
        then (negsuc 2, tell free (tell close streaming))
        else (
          pos 0,
          record streaming {
            packet = some (prepare library.stream_id (empty_packet library (1024 * 512)));
            is_init = true;
          },
        )

  -- The end of every push: -4 without a connection, -5 if the packet is not sent.
  unfoldable pub send : Packet → RtmpUtils → ℤ × RtmpUtils
  send p u =
      let asked = tell is_connected (record u { packet = some p }) in
      let sent = tell (send_packet p) asked in
      if not (status asked)
      then (negsuc 3, asked)
      else if not (status sent)
      then (negsuc 4, sent)
      else (pos 0, sent)

  -- `PushSPSPPS`: an AVC sequence header.
  unfoldable pub push_sps_pps : List ℕ → ℕ → List ℕ → ℕ → RtmpUtils → Result
  push_sps_pps sps sps_len pps pps_len u = u.packet >>= λ p. get_elem? sps 1 >>= λ profile.
      get_elem? sps 2 >>= λ compatibility. get_elem? sps 3 >>= λ level.
      slice sps 0 sps_len >>= λ sps_data. slice pps 0 pps_len >>= λ pps_data.
      blit p.body 0 (
        0x17
        ∷ 0x00
        ∷ 0x00
        ∷ 0x00
        ∷ 0x00
        ∷ 0x01
        ∷ profile
        ∷ compatibility
        ∷ level
        ∷ 0xFF
        ∷ 0xE1
        ∷ byte_of 8 sps_len
        ∷ byte_of 0 sps_len
        ∷ (sps_data ++ (0x01 ∷ byte_of 8 pps_len ∷ byte_of 0 pps_len ∷ pps_data)))
      >>= λ body. some (
          send
            (record {
              has_abs_timestamp = 1;
              channel = 0x04;
              info_field2 = library.stream_id;
              header_type = 1;
              time_stamp = 0;
              packet_type = 0x09;
              body_size = sps_len + pps_len + 16;
              body = body;
            })
            u)

  -- `PushH264Data`: one NAL unit, behind its length; the time goes on by 40 ms.
  unfoldable pub push_h264_data : List ℕ → ℕ → Bool → RtmpUtils → Result
  push_h264_data nal_unit data_len is_idr u = u.packet >>= λ p.
      slice nal_unit 0 data_len >>= λ nalu.
      blit (library.reset p).body 0 (
        (if is_idr then 0x17 else 0x27)
        ∷ 0x01
        ∷ 0x00
        ∷ 0x00
        ∷ 0x00
        ∷ byte_of 24 data_len
        ∷ byte_of 16 data_len
        ∷ byte_of 8 data_len
        ∷ byte_of 0 data_len
        ∷ nalu)
      >>= λ body. some (
          send
            (record {
              has_abs_timestamp = 1;
              channel = 0x04;
              info_field2 = library.stream_id;
              header_type = 0;
              time_stamp = u.timestamp % 2 ^ 32;
              packet_type = 0x09;
              body_size = data_len + 9;
              body = body;
            })
            (record u { timestamp = u.timestamp + 40 }))

  -- `pushFlvData`, given the memory from `buf` on and the length of the tag. What is copied into
  -- the packet is 15 bytes more than the data.
  unfoldable pub push_flv_data : List ℕ → ℕ → RtmpUtils → Result
  push_flv_data buf len u =
      if ltb len 15
      then some (negsuc 0, u)
      else (slice buf 0 1 >>= λ type_bytes. slice buf 1 3 >>= λ length_bytes.
          slice buf 4 4 >>= λ time_bytes.
          let type = store 0 type_bytes in
          let data_length = hton24 (store 0 length_bytes) in
          let time_stamp = hton_time (store 0 time_bytes) in
          let counted : RtmpUtils = record u {
            count = (if u.count % 50 == 0 then 0 else u.count) + 1;
          } in
          if not (type == 0x08 || type == 0x09)
          then some (negsuc 1, counted)
          else if not (data_length == len - 11 - 4)
          then some (negsuc 2, counted)
          else (u.packet >>= λ p. slice buf 11 (data_length + 11 + 4) >>= λ copied.
              blit p.body 0 copied >>= λ body. some (
                send
                  (record p {
                    header_type = 0;
                    time_stamp = time_stamp;
                    packet_type = type;
                    body_size = data_length;
                    body = body;
                  })
                  counted)))

-- `releaseRtmpHandle`
unfoldable pub release_rtmp_handle : RtmpUtils → RtmpUtils
release_rtmp_handle u =
    if u.is_init
    then (let closed = if u.rtmp then tell free (tell close (record u { rtmp = false })) else u in
        elim u.packet [
          | none ↦ record closed { is_init = false }
          | some p ↦ tell packet_free (record closed { is_init = false; packet = none })
        ])
    else u

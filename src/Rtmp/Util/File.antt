-- ===== src/Rtmp/Util/File.antt =====
-- `pushFlvFile` of RtmpUtil.cpp: the tags of an FLV file are sent one by one, at their times.
pub mod Total
pub mod Tags
pub mod Plays
pub mod Stream
pub mod Rounds
pub mod Complete
use jrtplib4android.Prelude.{
  ℕ, ◌+◌, ◌*◌, ◌-◌, ◌%◌, ◌^◌, Bool, Option, none, some, List, [], ◌∷◌, ltb, leb, ◌==◌, ◌||◌, not,
  if◌then◌else◌, length, take, drop, zero, suc,
}
use jrtplib4android.Prelude.Int.{ℤ, pos, negsuc}
use jrtplib4android.Prelude.Bytes.{◌>>=◌, blit}
use jrtplib4android.Rtmp.Wire.{hton24, hton_time, store}
use jrtplib4android.Rtmp.Util.State.{
  Packet, Library, Call, alloc, setup_url, enable_write, connect, connect_stream, is_connected,
  send_packet, close, free, packet_free, usleep, empty_packet, prepare,
}

-- The variables of the loop: the file with its position, the last type and data length, the
-- packet and the calls made.
pub record Loop : Type 0 where
  pub content : List ℕ
  pub at : ℕ
  pub type : ℕ
  pub data_length : ℕ
  pub time_stamp : ℕ
  pub packet : Packet
  pub calls : List Call

abbrev pub say : Call → Loop → Loop
say c l = record l { calls = c ∷ l.calls }

-- `fread` of so many bytes, all or nothing.
unfoldable pub read : ℕ → Loop → Option (List ℕ × Loop)
read n l =
    if leb (l.at + n) (length l.content)
    then some (take n (drop l.at l.content), record l { at = l.at + n })
    else none

-- `ReadU8` into `type`, `ReadU24` into `datalength`, `ReadTime` into `timestamp`.
unfoldable pub read_u8 : Loop → Option Loop
read_u8 l = read 1 l >>= λ r. some (record (r.1) { type = store l.type (r.0) })

unfoldable pub read_u24 : Loop → Option Loop
read_u24 l =
    read 3 l >>= λ r. some (record (r.1) { data_length = hton24 (store l.data_length (r.0)) })

unfoldable pub read_time : Loop → Option Loop
read_time l =
    read 4 l >>= λ r. some (record (r.1) { time_stamp = hton_time (store l.time_stamp (r.0)) })

-- `ReadU24` into `streamid` and `ReadU32` into `preTagsize`, which are not used.
unfoldable pub pass : ℕ → Loop → Option Loop
pass n l = read n l >>= λ r. some (r.1)

-- `PeekU8` into `type`
unfoldable pub peek_u8 : Loop → Option Loop
peek_u8 l = read 1 l >>= λ r. some (record l { type = store l.type (r.0) })

unfoldable pub read_tag : Loop → Option Loop
read_tag l = read_u8 l >>= λ l. read_u24 l >>= λ l. read_time l >>= λ l. pass 3 l

-- What a round comes to.
pub data Round : Type 0 where
  stop : Loop → Round
  again : Loop → Round
  fault : Round

-- What stands behind a tag: its size, and a look at the next one; for a video tag also at its
-- first byte of data, 11 bytes on.
unfoldable pub look_ahead : Loop → Option Loop
look_ahead l = pass 4 l >>= λ l. peek_u8 l >>= λ l.
    if l.type == 0x09
    then (peek_u8 (record l { at = l.at + 11 }) >>= λ m. some (record m { at = l.at }))
    else some l

module _ (library : Library) (start_time : ℕ) where
  -- The wait until the time of the tag; times are `uint32_t`.
  unfoldable pub wait : Loop → Loop
  wait l =
      let delt = (library.clock l.calls % 2 ^ 32 + 2 ^ 32 - start_time) % 2 ^ 32 in
      if ltb delt l.time_stamp then say (usleep ((l.time_stamp - delt) * 1000 % 2 ^ 32)) l else l

  abbrev pub status : Loop → Bool
  status l = library.answer l.calls

  -- An audio or video tag: its data is read into the packet, whose room is not checked, and sent.
  unfoldable pub send_tag : Loop → Round
  send_tag l = elim (blit l.packet.body 0 (take l.data_length (drop l.at l.content))) [
    | none ↦ fault
    | some body ↦
        if ltb (length l.content) (l.at + l.data_length)
        then stop (record l { at = length l.content })
        else let packet = record l.packet {
          header_type = 0;
          time_stamp = l.time_stamp;
          packet_type = l.type;
          body_size = l.data_length;
          body = body;
        } in
          let asked =
            say is_connected (wait (record l { at = l.at + l.data_length; packet = packet })) in
          let sent = say (send_packet packet) asked in
          if not (status asked)
          then stop asked
          else if not (status sent)
          then stop sent
          else elim (look_ahead sent) [ none ↦ stop sent | some next ↦ again next ]
  ]

  unfoldable pub round : Loop → Round
  round l = elim (read_tag l) [
    | none ↦ stop l
    | some t ↦
        if not (t.type == 0x08 || t.type == 0x09)
        then again (record t { at = t.at + (t.data_length + 4) })
        else send_tag t
  ]

  pub data End : Type 0 where
    ended : Loop → End
    faulted : End
    spent : End

  -- The loop, on fuel.
  unfoldable pub push_tags : ℕ → Loop → End
  push_tags zero l = spent
  push_tags (suc fuel) l = elim (round l) [
    | stop m ↦ ended m
    | again m ↦ push_tags fuel m
    | fault ↦ faulted
  ]

-- `pushFlvFile`: the content of the file, if it can be opened, what is returned and the calls made;
-- `none` is a fault. A round takes 11 bytes at least, so the fuel is enough.
unfoldable pub push_flv_file : Library → List ℕ → Option (List ℕ) → Option (ℤ × List Call)
push_flv_file library url none = some (negsuc 0, [])
push_flv_file library url (some content) =
    let set_up = setup_url url ∷ alloc ∷ [] in
    let connected = connect ∷ enable_write ∷ set_up in
    let streaming = connect_stream ∷ connected in
    if not (library.answer set_up)
    then some (negsuc 0, free ∷ set_up)
    else if not (library.answer connected)
    then some (negsuc 0, free ∷ connected)
    else if not (library.answer streaming)
    then some (negsuc 0, free ∷ close ∷ streaming)
    else (let loop : Loop = record {
      content = content;
      at = 13;
      type = 0;
      data_length = 0;
      time_stamp = 0;
      packet = prepare library.stream_id (empty_packet library (1024 * 64));
      calls = streaming;
    } in
        elim (push_tags library (library.clock streaming % 2 ^ 32) (suc (length content)) loop) [
          | ended l ↦ some (pos 0, packet_free ∷ free ∷ close ∷ l.calls)
          | faulted ↦ none
          | spent ↦ none
        ])

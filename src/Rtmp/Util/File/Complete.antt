-- ===== src/Rtmp/Util/File/Complete.antt =====
-- `pushFlvFile` sends a well-formed file completely.
use jrtplib4android.Prelude.{
  ℕ, zero, suc, ◌+◌, ◌*◌, ◌%◌, ◌^◌, ◌≤◌, ◌<◌, ◌≡◌, refl, sym, ap, ap₂, ◌∙◌, none, some, List, [],
  ◌∷◌, ◌++◌, true, arith, length, drop, length-append, subst, append_assoc, append-nil, Bool-cases,
  inl, inr,
}
use jrtplib4android.Prelude.Int.{pos}
use jrtplib4android.Prelude.Bytes.{drop-length}
use jrtplib4android.Rtmp.Util.State.{
  Library, IsLibrary, Call, alloc, setup_url, enable_write, connect, connect_stream, close, free,
  packet_free, empty_packet, prepare,
}
use jrtplib4android.Rtmp.Util.Flv.Tag.{tag_header}
use jrtplib4android.Rtmp.Util.File.{Loop, stop, again, round, push_tags, ended, push_flv_file}
use jrtplib4android.Rtmp.Util.File.Tags.{
  Tag, AreTags, one_more, bytes, file, Small, read_tag-header,
}
use jrtplib4android.Rtmp.Util.File.Plays.{Media, played, media, look_ahead-end, look_ahead-next}
use jrtplib4android.Rtmp.Util.File.Rounds.{
  is_media, round-end, round-other, round-media, media-one, media-none, behind-data, behind-tag,
}
use jrtplib4android.Rtmp.Util.File.Stream.{tagged, send_tag-sends, after}

module _ (library : Library) (willing : (calls : List Call) → library.answer calls ≡ true)
    (start_time : ℕ) where
  -- What the loop comes to from `l`, when `sent` is still to be sent.
  abbrev Plays : ℕ → Loop → List Media → Type 0
  Plays fuel l sent =
      (m : Loop) × (push_tags library start_time fuel l ≡ ended m)
      × ((later : List Media) → played m.calls later ≡ played l.calls (sent ++ later))

  go_on :
      (fuel : ℕ) (l next : Loop) (sent more : List Media)
      → round library start_time l ≡ again next
      → ((later : List Media) → played next.calls later ≡ played l.calls (sent ++ later))
      → Plays fuel next more
      → Plays (suc fuel) l (sent ++ more)
  unfolding push_tags
  go_on fuel l next sent more turned one (m, ran, plays_on) = (
    m,
    rw (turned, push_tags) ran,
    λ later.
        plays_on later
        ∙ (one (more ++ later) ∙ ap (played l.calls) (sym (append_assoc sent more later))),
  )

  -- After a packet: at the end of the file the loop stops, before another tag it goes on.
  sent_one :
      (fuel : ℕ) (l s : Loop) (size : List ℕ) (sent : List Media) (ts : List Tag)
      → AreTags ts
      → Small s
      → length s.packet.body ≡ 1024 * 64
      → drop s.at s.content ≡ size ++ file ts
      → length size ≡ 4
      → round library start_time l ≡ after library willing start_time s
      → ((later : List Media) → played s.calls later ≡ played l.calls (sent ++ later))
      → ((next : Loop)
          → Small next
          → length next.packet.body ≡ 1024 * 64
          → drop next.at next.content ≡ file ts
          → Plays fuel next (media ts))
      → Plays (suc fuel) l (sent ++ media ts)
  unfolding push_tags
  sent_one fuel l s size sent [] are small room ahead four turned one plays_on =
      let stopped : round library start_time l ≡ stop s =
        turned
        ∙ ap (λ o. elim o [ none ↦ stop s | some next ↦ again next ])
            (look_ahead-end s size ahead four) in
      (
        s,
        rw (stopped, push_tags) refl,
        λ later. one later ∙ ap (played l.calls) (sym (append_assoc sent [] later)),
      )
  sent_one fuel l s size sent (t ∷ ts) (one_more is_tag are) small room ahead four turned one
        plays_on =
      let (x, byte, looked, ahead_next) =
        look_ahead-next s size t (file ts) ahead four small.type_byte is_tag in
      let next : Loop = record s { at = s.at + 4; type = x } in
      go_on fuel l next sent (media (t ∷ ts))
        (turned ∙ ap (λ o. elim o [ none ↦ stop s | some next ↦ again next ]) looked) one
        (plays_on next
          (record { type_byte = byte; length_24 = small.length_24; time_32 = small.time_32 }) room
          ahead_next)

  -- The loop from tag to tag.
  plays :
      (ts : List Tag) (fuel : ℕ) (l : Loop)
      → AreTags ts
      → length ts < fuel
      → Small l
      → length l.packet.body ≡ 1024 * 64
      → drop l.at l.content ≡ file ts
      → Plays fuel l (media ts)
  unfolding push_tags
  plays ts zero l are enough small room ahead = absurd (omega arith)
  plays [] (suc fuel) l are enough small room ahead =
      (l, rw (round-end library start_time l ahead, push_tags) refl, λ later. refl)
  plays (t ∷ ts) (suc fuel) l (one_more is_tag are) enough small room ahead =
      elim (Bool-cases (is_media t)) [
        | inr other ↦
            let next : Loop = record (tagged l t) { at = l.at + 11 + (length t.body + 4) } in
            subst (Plays (suc fuel) l)
              (sym (media-none library start_time l t (file ts) small is_tag ahead other ts))
              (go_on fuel l next [] (media ts)
                (round-other library start_time l t (file ts) small is_tag ahead other)
                (λ later. refl)
                (plays ts fuel next are (omega arith)
                  (record {
                    type_byte = is_tag.is_byte;
                    length_24 = omega (arith, is_tag.room);
                    time_32 = is_tag.in_time;
                  })
                  room (behind-tag library start_time l t (file ts) small is_tag ahead)))
        | inl sound ↦
            let (s, ran, content, at, type, size, time, s_room, one) =
              send_tag-sends library willing start_time l t (file ts)
                ((read_tag-header l t (file ts) small is_tag ahead).1) is_tag room in
            let behind : drop s.at s.content ≡ t.size ++ file ts =
              ap₂ drop at content
              ∙ behind-data library start_time l t (file ts) small is_tag ahead in
            subst (Plays (suc fuel) l)
              (sym (media-one library start_time l t (file ts) small is_tag ahead sound ts))
              (sent_one fuel l s t.size ((t.kind, t.time, t.body) ∷ []) ts are
                (record {
                  type_byte = omega (arith, type, is_tag.is_byte);
                  length_24 = omega (arith, size, is_tag.room);
                  time_32 = omega (arith, time, is_tag.in_time);
                })
                s_room behind is_tag.four
                (round-media library start_time l t (file ts) small is_tag ahead sound ∙ ran) one
                (λ next next_small next_room next_ahead.
                  plays ts fuel next are (omega arith) next_small next_room next_ahead))
      ]

length-file : (ts : List Tag) → length ts ≤ length (file ts)
length-file [] = omega arith
length-file (t ∷ ts) = omega (
  arith,
  length-file ts,
  length-append (bytes t) (file ts),
  length-append (tag_header t.kind (length t.body) t.time) (t.body ++ t.size),
)

-- A file of a 13-byte header and well-formed tags, none with more data than the packet has room for,
-- is sent completely by `pushFlvFile` when no call of librtmp fails, whatever the clock says: 0 is
-- returned, and the packets that were sent are exactly the file's audio and video tags, in order,
-- each with its kind, its time and its data.
pub push_flv_file_complete :
    (library : Library) (url header : List ℕ) (ts : List Tag)
    → IsLibrary library
    → ((calls : List Call) → library.answer calls ≡ true)
    → length header ≡ 13
    → AreTags ts
    → (calls : List Call) × (push_flv_file library url (some (header ++ file ts))
        ≡ some (pos 0, calls))
      × (played calls [] ≡ media ts)
unfolding push_flv_file
push_flv_file_complete library url header ts is_library willing size are =
    let set_up : List Call = setup_url url ∷ alloc ∷ [] in
    let connected : List Call = connect ∷ enable_write ∷ set_up in
    let streaming : List Call = connect_stream ∷ connected in
    let content : List ℕ = header ++ file ts in
    let loop : Loop = record {
      content = content;
      at = 13;
      type = 0;
      data_length = 0;
      time_stamp = 0;
      packet = prepare library.stream_id (empty_packet library (1024 * 64));
      calls = streaming;
    } in
    let room : length (empty_packet library (1024 * 64)).body ≡ 1024 * 64 =
      ap length (is_library.reset-body (library.allocated (1024 * 64)))
      ∙ is_library.allocated-room (1024 * 64) in
    let (m, ran, in_order) =
      plays library willing (library.clock streaming % 2 ^ 32) ts (suc (length content)) loop are
        (omega (arith, length-file ts, length-append header (file ts)))
        (record { type_byte = omega arith; length_24 = omega arith; time_32 = omega arith }) room
        (drop-length header (file ts) 13 (sym size)) in
    (
      packet_free ∷ free ∷ close ∷ m.calls,
      rw (willing set_up, willing connected, willing streaming, ran) refl,
      in_order [] ∙ append-nil (media ts),
    )

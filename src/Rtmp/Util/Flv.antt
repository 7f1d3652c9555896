-- ===== src/Rtmp/Util/Flv.antt =====
-- What `pushFlvData` makes of an FLV tag.
pub mod Tag
use jrtplib4android.Prelude.{
  ℕ, ◌+◌, ◌-◌, ◌/◌, ◌%◌, ◌^◌, ◌≤◌, ◌<◌, ◌≡◌, refl, ap, ◌∙◌, ◌⊎◌, inl, inr, dec_lt, false, Option,
  none, some, List, [], ◌∷◌, ◌++◌, ltb, ◌==◌, ◌||◌, not, if◌then◌else◌, arith, length, take, drop,
  length-append, append_assoc, length-take,
}
use jrtplib4android.Prelude.Bytes.{
  ◌>>=◌, slice, blit, slice-in, slice-out, blit-in, blit-out, slice-middle, take-past, take-length,
}
use jrtplib4android.Prelude.Int.{ℤ}
use jrtplib4android.Rtmp.Util.State.{RtmpUtils, Packet, Library}
use jrtplib4android.Rtmp.Util.{send, push_flv_data}
use jrtplib4android.Rtmp.Util.Avc.{sent_bytes}
use jrtplib4android.Rtmp.Util.Flv.Tag.{tag, store-byte, store-length, store-time}

abbrev pub counted : RtmpUtils → RtmpUtils
counted u = record u { count = (if u.count % 50 == 0 then 0 else u.count) + 1 }

module _ (library : Library) (kind time : ℕ) (body size behind : List ℕ) (u : RtmpUtils)
    (p : Packet) (is_kind : (kind ≡ 8) ⊎ (kind ≡ 9)) (small : length body < 2 ^ 24)
    (in_time : time < 2 ^ 32) (four : length size ≡ 4) (ready : u.packet ≡ some p) where
  buf : List ℕ
  buf = tag kind time body size ++ behind

  copy : Option (ℤ × RtmpUtils)
  copy = slice buf 11 (length body + 11 + 4) >>= λ copied. blit p.body 0 copied >>= λ filled. some (
      send library
        (record p {
          header_type = 0;
          time_stamp = time;
          packet_type = kind;
          body_size = length body;
          body = filled;
        })
        (counted u))

  flv-copy : push_flv_data library buf (length body + 15) u ≡ copy
  unfolding push_flv_data buf copy
  flv-copy = rw (
    long,
    slice-middle [] (kind ∷ []) _ 0 1 refl refl,
    slice-middle (kind ∷ [])
        (length body / 65536 ∷ length body / 256 % 256 ∷ length body % 256 ∷ []) _ 1 3 refl refl,
    slice-middle (kind ∷ length body / 65536 ∷ length body / 256 % 256 ∷ length body % 256 ∷ [])
        (time / 65536 % 256 ∷ time / 256 % 256 ∷ time % 256 ∷ time / 2 ^ 24 ∷ []) _ 4 4 refl refl,
    store-byte kind,
    store-length (length body) small,
    store-time time in_time,
    is_type,
    fits,
    ready,
  )
    where
      long : ltb (length body + 15) 15 ≡ false
      long = ground arith

      is_type : not (kind == 0x08 || kind == 0x09) ≡ false
      is_type = ground arith

      fits : not (length body == length body + 15 - 11 - 4) ≡ false
      fits = ground arith

  push_flv-read :
      11 ≤ length behind
      → length body + 15 ≤ length p.body
      → (q : Packet) × (sent_bytes q ≡ body)
        × (q.packet_type ≡ kind)
        × (q.time_stamp ≡ time)
        × (push_flv_data library (tag kind time body size ++ behind) (length body + 15) u
            ≡ some (send library q (counted u)))
  unfolding buf copy
  push_flv-read readable room = (q, front, refl, refl, flv-copy ∙ rw (read_in, written))
    where
      source : List ℕ
      source = (body ++ size) ++ behind

      total : length source ≡ length body + (4 + length behind)
      total = omega (arith, length-append (body ++ size) behind, length-append body size)

      copied : List ℕ
      copied = take (length body + 11 + 4) source

      after : List ℕ
      after = drop (0 + length copied) p.body

      q : Packet
      q = record p {
        header_type = 0;
        time_stamp = time;
        packet_type = kind;
        body_size = length body;
        body = copied ++ after;
      }

      read_in : slice buf 11 (length body + 11 + 4) ≡ some copied
      read_in = slice-in buf 11 (length body + 11 + 4) (omega (arith, total))

      written : blit p.body 0 copied ≡ some (copied ++ after)
      written =
          blit-in p.body 0 copied (omega (arith, length-take (length body + 11 + 4) source, total))

      shape : source ≡ body ++ (size ++ behind)
      shape = append_assoc body size behind

      whole : copied ≡ body ++ take (length body + 11 + 4 - length body) (size ++ behind)
      whole =
          ap (λ s. take (length body + 11 + 4) s) shape
          ∙ take-past (length body + 11 + 4) body (size ++ behind) (omega arith)

      front : take (length body) (copied ++ after) ≡ body
      front =
          let more : List ℕ = take (length body + 11 + 4 - length body) (size ++ behind) in
          ap (λ c. take (length body) (c ++ after)) whole
          ∙ (ap (λ c. take (length body) c) (append_assoc body more after)
              ∙ take-length body (more ++ after))

  push_flv-overread :
      length behind < 11
      → push_flv_data library (tag kind time body size ++ behind) (length body + 15) u ≡ none
  unfolding buf copy
  push_flv-overread few =
      flv-copy
      ∙ rw (
          slice-out buf 11 (length body + 11 + 4)
            (omega (arith, length-append (body ++ size) behind, length-append body size)))

  push_flv-overflow :
      11 ≤ length behind
      → length p.body < length body + 15
      → push_flv_data library (tag kind time body size ++ behind) (length body + 15) u ≡ none
  unfolding buf copy
  push_flv-overflow readable full =
      let source : List ℕ = (body ++ size) ++ behind in
      let n : ℕ = length body + 11 + 4 in
      let total : length source ≡ length body + (4 + length behind) =
        omega (arith, length-append (body ++ size) behind, length-append body size) in
      flv-copy
      ∙ rw
          (
            slice-in buf 11 n (omega (arith, total)),
            blit-out p.body 0 (take n source) (omega (arith, length-take n source, total)),
          )
          refl

  -- A whole tag of audio or video, shorter than 2 ^ 24 bytes. With 11 readable bytes behind it and room
  -- in the packet for 15 bytes more than its data, it is sent as a packet of its kind and time whose
  -- data is the tag's data, or fails as `send` does. With fewer than 11 bytes behind it the copy reads
  -- past them; without the room it writes past the packet.
  pub push_flv_data_lem :
      ((11 ≤ length behind)
        × (length body + 15 ≤ length p.body)
        × (q : Packet) × (sent_bytes q ≡ body)
        × (q.packet_type ≡ kind)
        × (q.time_stamp ≡ time)
        × (push_flv_data library (tag kind time body size ++ behind) (length body + 15) u
            ≡ some (send library q (counted u))))
      ⊎ (((length behind < 11) ⊎ (length p.body < length body + 15))
          × (push_flv_data library (tag kind time body size ++ behind) (length body + 15) u ≡ none))
  push_flv_data_lem = elim (dec_lt (length behind) 11) [
    | yes few ↦ inr (inl few, push_flv-overread few)
    | no enough ↦ elim (dec_lt (length p.body) (length body + 15)) [
      | yes full ↦ inr (inr full, push_flv-overflow (omega arith) full)
      | no fits ↦
          let (q, front, kind_is, time_is, sent) = push_flv-read (omega arith) (omega arith) in
          inl (omega arith, omega arith, q, front, kind_is, time_is, sent)
    ]
  ]

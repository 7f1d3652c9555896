-- ===== src/Rtmp/Util/File/Stream.antt =====
-- The loop of `pushFlvFile` over a well-formed file, with a library that does not fail.
use jrtplib4android.Prelude.{
  ℕ, ◌+◌, ◌-◌, ◌*◌, ◌%◌, ◌^◌, ◌≡◌, refl, sym, ap, ◌∙◌, none, some, List, ◌∷◌, ◌++◌, Bool, true,
  false, arith, length, take, drop, length-append, length-drop, ltb, append_assoc, not,
  if◌then◌else◌, ◌⊎◌, inl, inr,
}
use jrtplib4android.Prelude.Bytes.{take-length, blit, blit-in}
use jrtplib4android.Rtmp.Util.State.{Packet, Library, Call, send_packet, is_connected, usleep}
use jrtplib4android.Rtmp.Util.File.{Loop, say, look_ahead, wait, send_tag, Round, stop, again}
use jrtplib4android.Rtmp.Util.File.Tags.{Tag, IsTag}
use jrtplib4android.Rtmp.Util.File.Plays.{Media, played}

-- The variables after a tag's header.
abbrev pub tagged : Loop → Tag → Loop
tagged l t = record l {
  at = l.at + 11;
  type = t.kind;
  data_length = length t.body;
  time_stamp = t.time;
}

if-cases {ℓ} :
    {A : Type ℓ} (b : Bool) (x y : A) → ((if b then x else y) ≡ y) ⊎ ((if b then x else y) ≡ x)
if-cases true x y = inr refl
if-cases false x y = inl refl

module _ (library : Library) (willing : (calls : List Call) → library.answer calls ≡ true)
    (start_time : ℕ) where
  wait-cases :
      (l : Loop)
      → (wait library start_time l ≡ l) ⊎ ((x : ℕ) × (wait library start_time l ≡ say (usleep x) l))
  unfolding wait
  wait-cases l =
      let delt : ℕ = (library.clock l.calls % 2 ^ 32 + 2 ^ 32 - start_time) % 2 ^ 32 in
      let pause : ℕ = (l.time_stamp - delt) * 1000 % 2 ^ 32 in
      elim (if-cases (ltb delt l.time_stamp) (say (usleep pause) l) l) [
        | inl none_due ↦ inl none_due
        | inr yes_wait ↦ inr (pause, yes_wait)
      ]

  -- What comes after a packet was sent.
  abbrev pub after : Loop → Round
  after s = elim (look_ahead s) [ none ↦ stop s | some next ↦ again next ]

  -- What a packet comes to, once it is due.
  abbrev due : Packet → Loop → Round
  due q w =
      let asked = say is_connected w in
      let sent = say (send_packet q) asked in
      if not (library.answer asked.calls)
      then stop asked
      else if not (library.answer sent.calls)
      then stop sent
      else after sent

  due-after : (q : Packet) (w : Loop) → due q w ≡ after (say (send_packet q) (say is_connected w))
  due-after q w =
      rw (willing (is_connected ∷ w.calls), willing (send_packet q ∷ is_connected ∷ w.calls)) refl

  module _ (l : Loop) (t : Tag) (rest : List ℕ)
      (ahead : drop (l.at + 11) l.content ≡ (t.body ++ t.size) ++ rest) (is_tag : IsTag t)
      (room : length l.packet.body ≡ 1024 * 64) where
    abbrev n : ℕ
    n = length t.body

    abbrev behind : List ℕ
    behind = drop (0 + n) l.packet.body

    -- The packet with the tag's data, and the variables behind the data.
    abbrev loaded : Packet
    loaded = record l.packet {
      header_type = 0;
      time_stamp = t.time;
      packet_type = t.kind;
      body_size = n;
      body = t.body ++ behind;
    }

    abbrev moved : Loop
    moved = record (tagged l t) { at = l.at + 11 + n; packet = loaded }

    shape : drop (l.at + 11) l.content ≡ t.body ++ (t.size ++ rest)
    shape = ahead ∙ append_assoc t.body t.size rest

    loads : send_tag library start_time (tagged l t) ≡ due loaded (wait library start_time moved)
    unfolding send_tag
    loads =
        let data_read : take n (drop (l.at + 11) l.content) ≡ t.body =
          ap (take n) shape ∙ take-length t.body (t.size ++ rest) in
        let total : length l.content - (l.at + 11) ≡ n + (4 + length rest) = omega (
          arith,
          sym (length-drop (l.at + 11) l.content),
          ap length shape,
          length-append t.body (t.size ++ rest),
          length-append t.size rest,
          is_tag.four,
        ) in
        let whole : ltb (length l.content) (l.at + 11 + n) ≡ false = ground arith in
        let filled : blit l.packet.body 0 t.body ≡ some (t.body ++ behind) =
          blit-in l.packet.body 0 t.body (omega (arith, room, is_tag.room)) in
        rw (data_read, send_tag, filled, whole) refl

    loaded-room : length loaded.body ≡ 1024 * 64
    loaded-room =
        omega
          (arith, length-append t.body behind, length-drop (0 + n) l.packet.body, room, is_tag.room)

    -- The tag's data is sent with its kind and time, and the position is behind the data.
    pub send_tag-sends :
        (s : Loop) × (send_tag library start_time (tagged l t) ≡ after s)
        × (s.content ≡ l.content)
        × (s.at ≡ l.at + 11 + length t.body)
        × (s.type ≡ t.kind)
        × (s.data_length ≡ length t.body)
        × (s.time_stamp ≡ t.time)
        × (length s.packet.body ≡ 1024 * 64)
        × ((later : List Media)
            → played s.calls later ≡ played l.calls ((t.kind, t.time, t.body) ∷ later))
    send_tag-sends =
        let sends : Loop → Loop = λ w. say (send_packet loaded) (say is_connected w) in
        let same : (later : List Media)
            → played l.calls ((t.kind, t.time, take n (t.body ++ behind)) ∷ later)
              ≡ played l.calls ((t.kind, t.time, t.body) ∷ later) =
          λ later.
            ap (λ d. played l.calls ((t.kind, t.time, d) ∷ later)) (take-length t.body behind) in
        elim (wait-cases moved) [
          | inl now ↦
              let ran = loads ∙ (ap (due loaded) now ∙ due-after loaded moved) in
              (sends moved, ran, refl, refl, refl, refl, refl, loaded-room, same)
          | inr (x, slept) ↦
              let w : Loop = say (usleep x) moved in
              let ran = loads ∙ (ap (due loaded) slept ∙ due-after loaded w) in
              (sends w, ran, refl, refl, refl, refl, refl, loaded-room, same)
        ]

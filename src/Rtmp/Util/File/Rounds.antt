-- ===== src/Rtmp/Util/File/Rounds.antt =====
-- One round of `pushFlvFile`'s loop over a well-formed file.
use jrtplib4android.Prelude.{
  ℕ, ◌+◌, ◌-◌, ◌≡◌, refl, sym, ap, ◌∙◌, List, [], ◌∷◌, ◌++◌, Bool, true, false, arith, length, drop,
  length-append, length-drop, append_assoc, ◌==◌, ◌||◌, if◌then◌else◌,
}
use jrtplib4android.Prelude.Bytes.{drop-drop, drop-length}
use jrtplib4android.Rtmp.Util.State.{Library}
use jrtplib4android.Rtmp.Util.File.{Loop, send_tag, stop, again, read_tag, round, read, read_u8}
use jrtplib4android.Rtmp.Util.File.Tags.{Tag, IsTag, bytes, Small, read_tag-header}
use jrtplib4android.Rtmp.Util.File.Plays.{media}
use jrtplib4android.Rtmp.Util.File.Stream.{tagged}

abbrev pub is_media : Tag → Bool
is_media t = t.kind == 0x08 || t.kind == 0x09

module _ (library : Library) (start_time : ℕ) where
  pub round-end : (l : Loop) → drop l.at l.content ≡ [] → round library start_time l ≡ stop l
  unfolding round read_tag read_u8 read
  round-end l at_end =
      let e : length l.content - l.at ≡ 0 =
        omega (arith, sym (length-drop l.at l.content), ap length at_end) in
      ground arith

  module _ (l : Loop) (t : Tag) (rest : List ℕ) (small : Small l) (is_tag : IsTag t)
      (ahead : drop l.at l.content ≡ bytes t ++ rest) where
    pub round-other :
        is_media t ≡ false
        → round library start_time l
          ≡ again (record (tagged l t) { at = l.at + 11 + (length t.body + 4) })
    unfolding round
    round-other other = rw ((read_tag-header l t rest small is_tag ahead).0, round, other) refl

    pub round-media :
        is_media t ≡ true → round library start_time l ≡ send_tag library start_time (tagged l t)
    unfolding round
    round-media yes_media =
        rw ((read_tag-header l t rest small is_tag ahead).0, round, yes_media) refl

    pub media-one :
        is_media t ≡ true → (ts : List Tag) → media (t ∷ ts) ≡ (t.kind, t.time, t.body) ∷ media ts
    media-one h ts = ap (λ b. if b then (t.kind, t.time, t.body) ∷ media ts else media ts) h

    pub media-none : is_media t ≡ false → (ts : List Tag) → media (t ∷ ts) ≡ media ts
    media-none h ts = ap (λ b. if b then (t.kind, t.time, t.body) ∷ media ts else media ts) h

    -- Behind the data, and behind the whole tag.
    pub behind-data : drop (l.at + 11 + length t.body) l.content ≡ t.size ++ rest
    behind-data =
        sym (drop-drop (length t.body) (l.at + 11) l.content)
        ∙ (ap (drop (length t.body))
              ((read_tag-header l t rest small is_tag ahead).1 ∙ append_assoc t.body t.size rest)
            ∙ drop-length t.body (t.size ++ rest) (length t.body) refl)

    pub behind-tag : drop (l.at + 11 + (length t.body + 4)) l.content ≡ rest
    behind-tag =
        sym (drop-drop (length t.body + 4) (l.at + 11) l.content)
        ∙ (ap (drop (length t.body + 4)) ((read_tag-header l t rest small is_tag ahead).1)
            ∙ drop-length (t.body ++ t.size) rest (length t.body + 4)
                (omega (arith, length-append t.body t.size, is_tag.four)))

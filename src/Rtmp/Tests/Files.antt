-- ===== src/Rtmp/Tests/Files.antt =====
-- `pushFlvFile` on a file of three tags.
use jrtplib4android.Prelude.{
  ℕ, zero, suc, ◌≡◌, refl, Bool, true, some, List, [], ◌∷◌, ◌++◌, arith, replicate, ltb, ◌&&◌,
}
use jrtplib4android.Prelude.Int.{pos}
use jrtplib4android.Rtmp.Util.State.{Call}
use jrtplib4android.Rtmp.Util.File.{push_flv_file}
use jrtplib4android.Rtmp.Util.File.Tags.{Tag, IsTag, IsBytes, none_left, one_more, file}
use jrtplib4android.Rtmp.Util.File.Plays.{played}
use jrtplib4android.Rtmp.Util.File.Complete.{push_flv_file_complete}
use jrtplib4android.Rtmp.Tests.{willing, willing-IsLibrary}

abbrev all_bytes : List ℕ → Bool
all_bytes [] = true
all_bytes (x ∷ xs) = ltb x 256 && all_bytes xs

all_bytes-IsBytes : (xs : List ℕ) → all_bytes xs ≡ true → IsBytes xs
all_bytes-IsBytes [] h i b there = absurd (ground arith)
all_bytes-IsBytes (x ∷ xs) h zero b there = ground arith
all_bytes-IsBytes (x ∷ xs) h (suc i) b there =
    let more : all_bytes xs ≡ true = ground arith in all_bytes-IsBytes xs more i b there

-- A file with a script, an audio and a video tag.
abbrev script : Tag
script = record { kind = 18; time = 0; body = 2 ∷ 0 ∷ []; size = 0 ∷ 0 ∷ 0 ∷ 13 ∷ [] }

script-IsTag : IsTag script
script-IsTag = record {
  is_byte = omega arith;
  in_time = omega arith;
  room = omega arith;
  four = refl;
  are_bytes = all_bytes-IsBytes (script.body ++ script.size) refl;
}

abbrev audio : Tag
audio = record { kind = 8; time = 0; body = 0xaf ∷ 1 ∷ 9 ∷ []; size = 0 ∷ 0 ∷ 0 ∷ 14 ∷ [] }

audio-IsTag : IsTag audio
audio-IsTag = record {
  is_byte = omega arith;
  in_time = omega arith;
  room = omega arith;
  four = refl;
  are_bytes = all_bytes-IsBytes (audio.body ++ audio.size) refl;
}

abbrev video : Tag
video = record { kind = 9; time = 70000; body = 0x17 ∷ 1 ∷ []; size = 0 ∷ 0 ∷ 0 ∷ 13 ∷ [] }

video-IsTag : IsTag video
video-IsTag = record {
  is_byte = omega arith;
  in_time = omega arith;
  room = omega arith;
  four = refl;
  are_bytes = all_bytes-IsBytes (video.body ++ video.size) refl;
}

abbrev three_tags : List Tag
three_tags = script ∷ audio ∷ video ∷ []

push_flv_file_example :
    (calls : List Call) × (push_flv_file willing [] (some (replicate 13 0 ++ file three_tags))
      ≡ some (pos 0, calls))
    × (played calls [] ≡ (8, 0, 0xaf ∷ 1 ∷ 9 ∷ []) ∷ (9, 70000, 0x17 ∷ 1 ∷ []) ∷ [])
push_flv_file_example =
    push_flv_file_complete willing [] (replicate 13 0) three_tags willing-IsLibrary (λ calls. refl)
      refl (one_more script-IsTag (one_more audio-IsTag (one_more video-IsTag none_left)))

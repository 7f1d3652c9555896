-- ===== src/Rtmp/Util/File/Total.antt =====
-- `pushFlvFile` comes to an end on every file.
use jrtplib4android.Prelude.{
  ℕ, zero, suc, ◌+◌, ◌-◌, ◌≤◌, ◌<◌, ◌≡◌, ◌≢◌, refl, ap, inl, inr, Option-cases, some, arith, length,
}
use jrtplib4android.Rtmp.Util.State.{Library}
use jrtplib4android.Rtmp.Util.File.{
  Loop, read, read_u8, read_u24, read_time, pass, peek_u8, read_tag, look_ahead, wait, send_tag,
  Round, stop, again, fault, round, spent, push_tags,
}

look_ahead-at : (l m : Loop) → look_ahead l ≡ some m → (m.content ≡ l.content) × (l.at ≤ m.at)
unfolding look_ahead pass peek_u8 read
look_ahead-at l m h = ground arith

read_tag-at :
    (l m : Loop)
    → read_tag l ≡ some m
    → (m.content ≡ l.content) × (l.at + 11 ≤ m.at) × (m.at ≤ length l.content)
unfolding read_tag read_u8 read_u24 read_time pass read
read_tag-at l m h = ground arith

module _ (library : Library) (start_time : ℕ) where
  wait-at :
      (l : Loop)
      → ((wait library start_time l).content ≡ l.content) × ((wait library start_time l).at ≡ l.at)
  unfolding wait
  wait-at l = ground arith

  send_tag-at :
      (l m : Loop)
      → send_tag library start_time l ≡ again m
      → (m.content ≡ l.content) × (l.at ≤ m.at)
  unfolding send_tag wait look_ahead pass peek_u8 read
  send_tag-at l m h = ground arith

  round-at :
      (l m : Loop)
      → round library start_time l ≡ again m
      → (m.content ≡ l.content) × (l.at + 11 ≤ m.at) × (l.at + 11 ≤ length l.content)
  unfolding round
  round-at l m h = elim (Option-cases (read_tag l)) [
    | inl e ↦ ground arith
    | inr (t, e) ↦ ground (arith, read_tag-at l t e, send_tag-at t m)
  ]

  go_on :
      (fuel : ℕ) (l : Loop) (r : Round)
      → round library start_time l ≡ r
      → length l.content - l.at < suc fuel
      → ((m : Loop) → length m.content - m.at < fuel → push_tags library start_time fuel m ≢ spent)
      → push_tags library start_time (suc fuel) l ≢ spent
  unfolding push_tags
  go_on fuel l (stop m) e enough next = rw (e, push_tags) (ground arith)
  go_on fuel l fault e enough next = rw (e, push_tags) (ground arith)
  go_on fuel l (again m) e enough next =
      rw (e, push_tags) (next m (omega (arith, round-at l m e, ap length ((round-at l m e).0))))

  -- The loop over the tags of a file comes to an end before the fuel is spent, whatever the file, the
  -- clock and the answers of the library, if there is more fuel than bytes left to read.
  pub push_tags-total :
      (fuel : ℕ) (l : Loop)
      → length l.content - l.at < fuel
      → push_tags library start_time fuel l ≢ spent
  unfolding push_tags
  push_tags-total zero l enough = absurd (omega arith)
  push_tags-total (suc fuel) l enough =
      go_on fuel l (round library start_time l) refl enough (λ m. push_tags-total fuel m)

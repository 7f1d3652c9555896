-- ===== src/Osd/Glyphs/Index.antt =====
-- The characters of a date and their pictures.
use jrtplib4android.Prelude.{ℕ, ◌+◌, ◌*◌, ◌≤◌, ◌≡◌, Bool, leb, ◌==◌, ◌&&◌, ◌||◌, true, arith}
use jrtplib4android.Osd.Glyphs.{get_index, size}

-- The characters that have a picture of their own.
abbrev is_drawn : ℕ → Bool
is_drawn c =
    (leb b'0' c && leb c b'9')
    || (c == b'-' || (c == b' ' || (c == b':' || (c == 24180 || (c == 26376 || c == 26085)))))

-- The picture of any character lies inside the table of 16 pictures, and two characters that have
-- pictures of their own share one only if they are the same.
pub get_index_lem :
    (a b : ℕ)
    → (get_index a * size + size ≤ 16 * size)
      × (is_drawn a ≡ true → is_drawn b ≡ true → get_index a ≡ get_index b → a ≡ b)
unfolding get_index
get_index_lem a b = ground arith

-- ===== src/Osd/Nv12.antt =====
-- `nv21ToNv12` of osd/src/main/jni/YuvUtils.cpp.
use jrtplib4android.Prelude.{
  ℕ, ◌+◌, ◌*◌, ◌/◌, ◌<◌, ◌≤◌, ◌≡◌, Option, some, List, arith, get_elem?, length, ap, ◌∙◌,
}
use jrtplib4android.Prelude.Bytes.{◌>>=◌, slice, blit}
use jrtplib4android.Osd.Frame.{copy_pairs}
use jrtplib4android.Osd.Frame.Turn.{frame_size}
use jrtplib4android.Osd.Frame.Picture.{nv21, nv12, chroma_at}
use jrtplib4android.Osd.Frame.Straight.{prefix_copy, chroma_copy, >>=_assoc}

-- `memcpy` is given its buffers in the wrong order: it writes into the source. Both buffers are
-- returned, the source first.
unfoldable pub nv21_to_nv12 :
    (nv21_src nv12_dest : List ℕ) → (width height : ℕ) → Option (List ℕ × List ℕ)
nv21_to_nv12 nv21_src nv12_dest width height =
    let framesize = width * height in
    slice nv12_dest 0 framesize >>= λ luma. blit nv21_src 0 luma >>= λ src.
    copy_pairs src (λ r t. framesize + 2 * t) 1 ((framesize / 2 + 1) / 2) framesize nv12_dest
    >>= λ dest. some (src, dest)

-- For an even width and height and room for a frame in both buffers, the colours of the source arrive
-- in the destination as NV12. The brightness does not: the destination keeps its own, and it is the
-- source that loses its brightness to the destination's.
pub nv21_to_nv12-luma_lost :
    (src dest : List ℕ) (a b : ℕ)
    → frame_size a b ≤ length src
    → frame_size a b ≤ length dest
    → (s d : List ℕ) × (nv21_to_nv12 src dest (2 * a) (2 * b) ≡ some (s, d))
      × ((column row : ℕ)
          → column < a
          → row < b
          → ((nv12 a b d).u column row ≡ (nv21 a b src).u column row)
            × ((nv12 a b d).v column row ≡ (nv21 a b src).v column row))
      × ((i : ℕ)
          → i < 2 * a * (2 * b)
          → (get_elem? d i ≡ get_elem? dest i) × (get_elem? s i ≡ get_elem? dest i))
unfolding nv21_to_nv12
nv21_to_nv12-luma_lost src dest a b enough room =
    let n : ℕ = 2 * a * (2 * b) in
    let (s, copied, s_size, luma, behind) = prefix_copy dest src n (omega arith) (omega arith) in
    let (d, ran, d_size, kept, pair) = chroma_copy s dest a b (omega (arith, s_size)) room in
    (
      s,
      d,
      >>=_assoc (slice dest 0 n) (λ l. blit src 0 l)
            (λ t. copy_pairs t (λ r i. n + 2 * i) 1 ((n / 2 + 1) / 2) n dest >>= λ e. some (t, e)) s
            copied
          ∙ ap (λ o. o >>= λ e. some (s, e)) ran,
      λ c r hc hr. (
        (pair c r hc hr).0 ∙ behind (chroma_at a b c r + 1) (omega arith),
        (pair c r hc hr).1 ∙ behind (chroma_at a b c r) (omega arith),
      ),
      λ i h. (kept i h, luma i h),
    )

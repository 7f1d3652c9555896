-- ===== src/Rtp/Network/Frames.antt =====
-- Frames of a program stream, cut into payloads by Java, and the frames that the receiver is given.
use jrtplib4android.Prelude.{
  ℕ, suc, ◌+◌, ◌^◌, ◌≤◌, ◌<◌, ◌≡◌, refl, ap, ◌∙◌, true, false, some, List, [], ◌∷◌, ◌++◌, length,
  arith,
}
use jrtplib4android.Prelude.Bytes.{begins_with}
use jrtplib4android.Rtp.Session.{Call, receive_rtp_data}
use jrtplib4android.Rtp.Receiver.PStream.Code.{Section, encode, videos}
use jrtplib4android.Rtp.Receiver.PStream.Header.{pack_header}
use jrtplib4android.Rtp.Receiver.Assemble.Frames.{pack_code}
use jrtplib4android.Rtp.Receiver.Assemble.Packets.{packet, packets, payloads, Quiet}
use jrtplib4android.Rtp.Receiver.Assemble.Stream.{PsFrame, IsPsFrame, flow, Fits, heard}
use jrtplib4android.Rtp.Network.{Network, Chunk, carried, carry_all}
use jrtplib4android.Rtp.Network.Sent.{AreEnough}

-- A frame and the payloads that it is cut into.
pub record CutFrame : Type 0 where
  pub first : Chunk
  pub others : List Chunk
  pub head : List ℕ
  pub flags : ℕ
  pub stuffing : List ℕ
  pub units : List Section

abbrev pub bytes_of : CutFrame → List ℕ
bytes_of f = pack_header f.head f.flags f.stuffing ++ encode f.units

abbrev pub joined : List Chunk → List ℕ
joined [] = []
joined (c ∷ cs) = c.payload ++ joined cs

abbrev pub chunks : List CutFrame → List Chunk
chunks [] = []
chunks (f ∷ fs) = f.first ∷ (f.others ++ chunks fs)

-- Payloads that the sender takes and that a packet takes.
abbrev pub IsChunk : Chunk → Type 0
IsChunk c = (4 ≤ length c.payload) × (12 + length c.payload < 2 ^ 16)

abbrev pub StartNothing : List Chunk → Type 0
StartNothing [] = Unit
StartNothing (c ∷ cs) = IsChunk c × (begins_with c.payload pack_code ≡ some false) × StartNothing cs

abbrev pub IsCutFrame : CutFrame → Type 0
IsCutFrame f =
    IsChunk f.first
    × (begins_with f.first.payload pack_code ≡ some true)
    × StartNothing f.others
    × (f.first.payload ++ joined f.others ≡ bytes_of f)
    × (length f.head ≡ 13)
    × (length f.stuffing < 8)
    × (0 < length (videos f.units))
    × (length (videos f.units) < 2097152)

-- The receiver's buffer takes each frame together with the first payload of the next.
abbrev pub HaveRoom : CutFrame → List CutFrame → Type 0
HaveRoom f [] = length (bytes_of f) < 4194304
HaveRoom f (g ∷ gs) =
    (length (bytes_of f) + length g.first.payload < 4194304)
    × (length g.first.payload ≤ length (bytes_of f))
    × IsCutFrame g
    × HaveRoom g gs

-- What the listener should hear, the newest first.
abbrev pub notices : CutFrame → List CutFrame → List Call
notices f [] = []
notices f (g ∷ gs) = notices g gs ++ (receive_rtp_data (videos f.units) g.first.marker 0 ∷ [])

chunk-AreEnough : (cs rest : List Chunk) → StartNothing cs → AreEnough rest → AreEnough (cs ++ rest)
chunk-AreEnough [] rest q e = e
chunk-AreEnough (c ∷ cs) rest (ok, starts, q) e = (ok.0, chunk-AreEnough cs rest q e)

pub chunks-AreEnough :
    (f : CutFrame) (fs : List CutFrame) → IsCutFrame f → HaveRoom f fs → AreEnough (chunks (f ∷ fs))
chunks-AreEnough f [] (ok, starts, q, whole, h13, h8, video, fit) room =
    (ok.0, chunk-AreEnough f.others [] q tt)
chunks-AreEnough f (g ∷ gs) (ok, starts, q, whole, h13, h8, video, fit) (r1, r2, is_g, room) =
    (ok.0, chunk-AreEnough f.others (chunks (g ∷ gs)) q (chunks-AreEnough g gs is_g room))

module _ (net : Network) where
  abbrev pub numbered : ℕ → CutFrame → PsFrame
  numbered n f = record {
    first = carried net n f.first.marker f.first.payload;
    others = carry_all net (suc n) f.others;
    head = f.head;
    flags = f.flags;
    stuffing = f.stuffing;
    units = f.units;
  }

  abbrev pub numbered_all : ℕ → List CutFrame → List PsFrame
  numbered_all n [] = []
  numbered_all n (f ∷ fs) = numbered n f ∷ numbered_all (suc n + length f.others) fs

  payloads-carry_all : (n : ℕ) (cs : List Chunk) → payloads (carry_all net n cs) ≡ joined cs
  payloads-carry_all n [] = refl
  payloads-carry_all n (c ∷ cs) = ap (λ bytes. c.payload ++ bytes) (payloads-carry_all (suc n) cs)

  carry_all-Quiet : (n : ℕ) (cs : List Chunk) → StartNothing cs → Quiet (carry_all net n cs)
  carry_all-Quiet n [] q = tt
  carry_all-Quiet n (c ∷ cs) ((some_bytes, small), starts, q) =
      ((net.head_size n, omega arith, small), starts, carry_all-Quiet (suc n) cs q)

  pub numbered-IsPsFrame : (n : ℕ) (f : CutFrame) → IsCutFrame f → IsPsFrame (numbered n f)
  numbered-IsPsFrame n f ((some_bytes, small), starts, q, whole, h13, h8, video, fit) = (
    (net.head_size n, omega arith, small),
    starts,
    carry_all-Quiet (suc n) f.others q,
    ap (λ bytes. f.first.payload ++ bytes) (payloads-carry_all (suc n) f.others) ∙ whole,
    h13,
    h8,
    video,
    fit,
  )

  pub numbered-Fits :
      (n m : ℕ) (f : CutFrame) (fs : List CutFrame)
      → HaveRoom f fs
      → Fits (numbered n f) (numbered_all m fs)
  numbered-Fits n m f [] room = room
  numbered-Fits n m f (g ∷ gs) (r1, r2, is_g, room) =
      (r1, r2, numbered-IsPsFrame m g is_g, numbered-Fits m (suc m + length g.others) g gs room)

  pub heard-numbered :
      (n m : ℕ) (f : CutFrame) (fs : List CutFrame)
      → heard (numbered n f) (numbered_all m fs) ≡ notices f fs
  heard-numbered n m f [] = refl
  heard-numbered n m f (g ∷ gs) =
      ap (λ k. k ++ (receive_rtp_data (videos f.units) g.first.marker 0 ∷ []))
        (heard-numbered m (suc m + length g.others) g gs)

  packets-carry_append :
      (n : ℕ) (cs ds : List Chunk)
      → packets (carry_all net n (cs ++ ds))
        ≡ packets (carry_all net n cs) ++ packets (carry_all net (n + length cs) ds)
  packets-carry_append n [] ds = ap (λ k. packets (carry_all net k ds)) (omega arith)
  packets-carry_append n (c ∷ cs) ds =
      ap (λ ps. packet (carried net n c.marker c.payload) ∷ ps)
        (packets-carry_append (suc n) cs ds
          ∙ ap (λ k. packets (carry_all net (suc n) cs) ++ packets (carry_all net k ds))
              (omega arith))

  pub flow-numbered :
      (n : ℕ) (fs : List CutFrame)
      → packets (carry_all net n (chunks fs)) ≡ flow (numbered_all n fs)
  flow-numbered n [] = refl
  flow-numbered n (f ∷ fs) =
      ap (λ ps. packet (carried net n f.first.marker f.first.payload) ∷ ps)
        (packets-carry_append (suc n) f.others (chunks fs)
          ∙ ap (λ ps. packets (carry_all net (suc n) f.others) ++ ps)
              (flow-numbered (suc n + length f.others) fs))

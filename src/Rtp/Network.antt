-- ===== src/Rtp/Network.antt =====
-- Between a sending and a receiving session: the RTP packets that a trace of the sender stands for,
-- and payloads on their way to a receiver.
pub mod Sent
pub mod Frames
use jrtplib4android.Prelude.{ℕ, suc, ◌+◌, ◌%◌, ◌^◌, ◌≡◌, Bool, false, List, [], ◌∷◌, ◌++◌, length}
use jrtplib4android.Rtp.Session.{Call, set_default_mark, send_packet, send_packet_with}
use jrtplib4android.Rtp.Receiver.Assemble.Packets.{Carried}

-- A network that loses nothing and keeps the order: the session numbers its packets one by one from a
-- number of its own, and writes an RTP header of twelve bytes before each payload.
pub record Network : Type 0 where
  pub first : ℕ
  pub head : ℕ → List ℕ
  pub head_size : (n : ℕ) → length (head n) ≡ 12

-- The marker that the session gives to a packet without one of its own, set before the first packet.
abbrev pub default_mark : List Call → Bool
default_mark [] = false
default_mark (set_default_mark m ∷ calls) = m
default_mark (c ∷ calls) = default_mark calls

-- How many packets a trace holds.
abbrev pub sent : List Call → ℕ
sent [] = 0
sent (send_packet payload ∷ calls) = suc (sent calls)
sent (send_packet_with payload type mark increment ∷ calls) = suc (sent calls)
sent (c ∷ calls) = sent calls

-- A payload of Java with its marker, and the packet that carries it.
pub record Chunk : Type 0 where
  pub ref : ℕ
  pub payload : List ℕ
  pub marker : Bool

module _ (net : Network) where
  abbrev pub carried : ℕ → Bool → List ℕ → Carried
  carried n marker payload = record {
    seq = (net.first + n) % 2 ^ 16;
    marker = marker;
    head = net.head n;
    payload = payload;
  }

  abbrev pub carry_all : ℕ → List Chunk → List Carried
  carry_all n [] = []
  carry_all n (c ∷ cs) = carried n c.marker c.payload ∷ carry_all (suc n) cs

  -- What the receiving session gets of a trace, the oldest first.
  abbrev pub wire : List Call → List Carried
  wire [] = []
  wire (send_packet payload ∷ calls) =
      wire calls ++ carried (sent calls) (default_mark calls) payload ∷ []
  wire (send_packet_with payload type mark increment ∷ calls) =
      wire calls ++ carried (sent calls) mark payload ∷ []
  wire (c ∷ calls) = wire calls

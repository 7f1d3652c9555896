-- ===== src/Rtp/Sender/Reader.antt =====
-- An independent reader of FU-A packets, as RFC 6184 describes it, and the packets that a list of
-- calls holds. The sender is judged by what this reader gets.
use jrtplib4android.Prelude.{
  ℕ, ◌+◌, ◌*◌, ◌/◌, ◌%◌, Bool, false, Option, none, some, List, [], ◌∷◌, ◌++◌, ◌==◌, ◌&&◌, not,
  if◌then◌else◌,
}
use jrtplib4android.Rtp.Session.{
  Call, send_packet, send_packet_with, set_default_mark, set_default_timestamp_increment,
}

-- A packet given to the session, with its marker and timestamp increment.
pub record Packet : Type 0 where
  pub payload : List ℕ
  pub mark : Bool
  pub increment : ℕ

-- The marker and the increment of a packet that has none of its own: those set last.
abbrev default_mark : List Call → Bool
default_mark [] = false
default_mark (set_default_mark m ∷ calls) = m
default_mark (c ∷ calls) = default_mark calls

abbrev default_increment : List Call → ℕ
default_increment [] = 0
default_increment (set_default_timestamp_increment n ∷ calls) = n
default_increment (c ∷ calls) = default_increment calls

-- The packets of a trace, the oldest first.
unfoldable pub packets : List Call → List Packet
packets [] = []
packets (send_packet payload ∷ calls) =
    packets calls
    ++ record { payload = payload; mark = default_mark calls; increment = default_increment calls }
      ∷ []
packets (send_packet_with payload type mark increment ∷ calls) =
    packets calls ++ record { payload = payload; mark = mark; increment = increment } ∷ []
packets (_ ∷ calls) = packets calls

abbrev pub is_fu_a : ℕ → Bool
is_fu_a indicator = indicator % 32 == 28

abbrev pub start_bit : ℕ → Bool
start_bit header = header / 128 == 1

abbrev pub end_bit : ℕ → Bool
end_bit header = header / 64 % 2 == 1

abbrev pub prepend : List ℕ → Option (List ℕ) → Option (List ℕ)
prepend body none = none
prepend body (some rest) = some (body ++ rest)

abbrev pub ends : List Packet → List ℕ → Option (List ℕ)
ends [] body = some body
ends (p ∷ ps) body = none

-- One fragment behind the first, given what the later ones hold.
unfoldable pub join_one : List ℕ → Bool → List Packet → Option (List ℕ) → Option (List ℕ)
join_one (indicator ∷ header ∷ body) mark later rest =
    if is_fu_a indicator && not (start_bit header)
    then if end_bit header
      then if mark then ends later body else none
      else if mark
      then none
      else prepend body rest
    else none
join_one _ mark later rest = none

unfoldable pub join_rest : List Packet → Option (List ℕ)
unfolding join_one
join_rest [] = none
join_rest (p ∷ later) = join_one p.payload p.mark later (join_rest later)

-- The first fragment gives the header of the NALU: its upper bits from the FU indicator, its type
-- from the FU header.
unfoldable pub join_first : List ℕ → Bool → Option (List ℕ) → Option (List ℕ)
join_first (indicator ∷ header ∷ body) mark rest =
    if is_fu_a indicator && start_bit header && not (end_bit header) && not mark
    then prepend ((indicator / 32 * 32 + header % 32) ∷ body) rest
    else none
join_first _ mark rest = none

-- The NALU that a list of packets carries, if they are the fragments of exactly one.
unfoldable pub join : List Packet → Option (List ℕ)
join [] = none
join (p ∷ later) = join_first p.payload p.mark (join_rest later)

-- Sum of the timestamp increments.
unfoldable pub total_increment : List Packet → ℕ
total_increment [] = 0
total_increment (p ∷ later) = p.increment + total_increment later

-- ===== src/Rtmp/Broadcast.antt =====
-- The steps of a broadcast through RtmpHandle.cpp, with a library where every call succeeds: the NAL units
-- here, the set-up and the parameter sets in `Begin`.
pub mod Begin
use jrtplib4android.Prelude.{
  ℕ, ◌+◌, ◌%◌, ◌^◌, ◌≤◌, ◌≡◌, refl, sym, ap, ◌∙◌, Bool, true, false, Option, none, some, List, [],
  ◌∷◌, ◌++◌, ◌==◌, if◌then◌else◌, length, append_assoc, append-nil, arith,
}
use jrtplib4android.Prelude.Int.{ℤ, pos, negsuc}
use jrtplib4android.Prelude.Bytes.{◌>>=◌}
use jrtplib4android.Jni.{HostCall, Loan, lock, unlock, byte_elements, get_all, release_all}
use jrtplib4android.Rtmp.Util.State.{
  RtmpUtils, Packet, Library, IsLibrary, Call, send_packet, is_connected, tell,
}
use jrtplib4android.Rtmp.Util.{send}
use jrtplib4android.Rtmp.Util.Avc.{sent_bytes, read_nalu, push_h264-read}
use jrtplib4android.Rtmp.Util.Life.{has_packet, IsSound}
use jrtplib4android.Rtmp.Handle.{Array, under_lock, push_h264_handle}
use jrtplib4android.Rtmp.Handle.Guarded.{IsKept, mutex_is, pushes-IsKept}

-- A NAL unit of Java, and whether it is a key frame.
pub record Unit264 : Type 0 where
  pub ref : ℕ
  pub nalu : List ℕ
  pub is_key : Bool

abbrev pub array : ℕ → List ℕ → Array
array r bytes = record { ref = r; elements = some bytes }

abbrev pub is_zero : ℤ → Bool
is_zero (pos n) = n == 0
is_zero (negsuc n) = false

-- `pushH264Data_` for unit after unit; each must return 0.
abbrev pub push_units :
    Library → List Unit264 → RtmpUtils → List HostCall → Option (RtmpUtils × List HostCall)
push_units library [] u calls = some (u, calls)
push_units library (n ∷ ns) u calls =
    push_h264_handle library (some u) (array n.ref n.nalu) n.is_key calls >>= λ r.
    let (ret, kept, after) = r in
    elim kept [
      | none ↦ none
      | some v ↦ let rest = push_units library ns v after in if is_zero ret then rest else none
    ]

-- The packets that calls have sent, the oldest first.
abbrev pub sent_packets : List Call → List Packet
sent_packets [] = []
sent_packets (send_packet p ∷ calls) = sent_packets calls ++ p ∷ []
sent_packets (c ∷ calls) = sent_packets calls

-- Packets out of which a player reads these units, one every 40 ms from a time on.
pub data Plays : ℕ → List Unit264 → List Packet → Type 0 where
  nothing : {time : ℕ} → Plays time [] []
  unit_next :
      {time : ℕ} {n : Unit264} {ns : List Unit264} {q : Packet} {qs : List Packet}
      → read_nalu (sent_bytes q) ≡ some (n.is_key, n.nalu)
      → q.time_stamp ≡ time % 2 ^ 32
      → Plays (time + 40) ns qs
      → Plays time (n ∷ ns) (q ∷ qs)

-- Every unit fits into a packet.
abbrev pub Fit : List Unit264 → Type 0
Fit [] = Unit
Fit (n ∷ ns) = (length n.nalu + 9 ≤ 524288) × Fit ns

-- A library where every call succeeds.
abbrev pub Succeeds : Library → Type 0
Succeeds library = (calls : List Call) → library.answer calls ≡ true

module _ (library : Library) (is_library : IsLibrary library) (succeeds : Succeeds library) where
  pub send-succeeds :
      (q : Packet) (u : RtmpUtils)
      → send library q u
        ≡ (pos 0, tell (send_packet q) (tell is_connected (record u { packet = some q })))
  unfolding send
  send-succeeds q u =
      let asked : List Call = is_connected ∷ u.calls in
      rw (succeeds asked, succeeds (send_packet q ∷ asked)) refl

  pub units-received :
      (ns : List Unit264) (u : RtmpUtils) (p : Packet) (calls : List HostCall)
      → u.packet ≡ some p
      → length p.body ≡ 524288
      → Fit ns
      → IsSound u
      → mutex_is false calls ≡ true
      → (after : RtmpUtils) × (later : List HostCall) × (qs : List Packet) × (push_units library ns
            u calls
          ≡ some (after, later))
        × (sent_packets after.calls ≡ sent_packets u.calls ++ qs)
        × Plays u.timestamp ns qs
        × (has_packet after.packet ≡ true)
        × IsKept calls (pos 0, some after, later)
  unfolding push_h264_handle under_lock
  units-received [] u p calls ready room fit sound free_now = (
    u,
    calls,
    [],
    refl,
    sym (append-nil (sent_packets u.calls)),
    nothing,
    rw ready refl,
    (sound, free_now, λ l. omega arith),
  )
  units-received (n ∷ ns) u p calls ready room (fits, fit) sound free_now =
      let (q, read, time, q_room, ran) =
        push_h264-read library n.nalu n.is_key u p is_library ready (omega (arith, room))
          (omega arith) in
      let v : RtmpUtils =
        tell (send_packet q)
          (tell is_connected (record u { packet = some q; timestamp = u.timestamp + 40 })) in
      let loans : List Loan = byte_elements n.ref ∷ [] in
      let back : List HostCall = unlock ∷ release_all loans (get_all loans (lock ∷ calls)) in
      let pushed : push_h264_handle library (some u) (array n.ref n.nalu) n.is_key calls
          ≡ some (pos 0, some v, back) =
        rw (ran, send-succeeds q (record u { timestamp = u.timestamp + 40 })) refl in
      let (kept, held, gives) =
        (pushes-IsKept library (some u) calls (pos 0, some v, back) sound free_now).1
          (array n.ref n.nalu) n.is_key pushed in
      let (after, later, qs, rest, sent, plays, ready_still, last) =
        units-received ns v q back refl (q_room ∙ room) fit kept held in
      (
        after,
        later,
        q ∷ qs,
        ap
              (λ m. m >>= λ r. elim r.1 [
                | none ↦ none
                | some w ↦
                    let more = push_units library ns w r.2 in if is_zero r.0 then more else none
              ])
              pushed
            ∙ rest,
        sent ∙ append_assoc (sent_packets u.calls) (q ∷ []) qs,
        unit_next read time plays,
        ready_still,
        (last.0, last.1, λ l. omega (arith, gives l, last.2 l)),
      )

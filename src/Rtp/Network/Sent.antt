-- ===== src/Rtp/Network/Sent.antt =====
-- Payloads that go through `sendByte_` one after the other are on the wire in this order.
use jrtplib4android.Prelude.{
  ℕ, suc, ◌+◌, ◌%◌, ◌==◌, if◌then◌else◌, ◌≤◌, ◌≡◌, refl, sym, ap, ◌∙◌, Bool, true, false, Option,
  none, some, List, [], ◌∷◌, ◌++◌, length, append_assoc, append-nil, arith, ltb,
}
use jrtplib4android.Prelude.Int.{pos}
use jrtplib4android.Prelude.Bytes.{◌>>=◌}
use jrtplib4android.Jni.{HostCall, GivesBack, get, release, byte_elements}
use jrtplib4android.Rtp.Session.{
  Answer, Call, send_packet, set_default_mark, set_default_timestamp_increment,
}
use jrtplib4android.Rtp.Sender.State.{Sender, tell, count_packet, timestamp_step}
use jrtplib4android.Rtp.Sender.Reassemble.{Accepts, accepted}
use jrtplib4android.Rtp.Sender.Faults.{send_rtp_data_lem}
use jrtplib4android.Rtp.Sender.Send.{send_rtp_data, returned}
use jrtplib4android.Rtp.Handle.{RtpHandle, send_byte}
use jrtplib4android.Rtp.Handle.Delivery.{sending}
use jrtplib4android.Rtp.Network.{Network, Chunk, wire, sent, carried, carry_all}

-- `sendByte_` for payload after payload, each with its own marker.
abbrev pub send_chunks :
    Answer
    → (List Call → Bool)
    → List Chunk
    → RtpHandle
    → ℕ
    → List HostCall
    → Option (RtpHandle × ℕ × List HostCall)
send_chunks answer found [] h count calls = some (h, count, calls)
send_chunks answer found (c ∷ cs) h count calls =
    send_byte answer found (some h) (record { ref = c.ref; elements = c.payload })
      (pos (length c.payload)) c.marker true count calls
    >>= λ r.
        let (done, kept, k, after) = r in
        elim kept [ none ↦ none | some next ↦ send_chunks answer found cs next k after ]

-- No payload is refused for being too short.
abbrev pub AreEnough : List Chunk → Type 0
AreEnough [] = Unit
AreEnough (c ∷ cs) = (4 ≤ length c.payload) × AreEnough cs

module _ (answer : Answer) (found : List Call → Bool) (ok : Accepts answer) (net : Network) where
  data_sent :
      (c : Chunk) (s : Sender)
      → 4 ≤ length c.payload
      → (after : Sender) × (send_rtp_data answer c.payload (pos (length c.payload)) c.marker s
          ≡ some (returned true, after))
        × (wire net after.calls
            ≡ wire net s.calls ++ carried net (sent s.calls) c.marker c.payload ∷ [])
        × (sent after.calls ≡ suc (sent s.calls))
  unfolding count_packet
  data_sent c s enough =
      let step : ℕ = if c.marker then timestamp_step s else 0 in
      let after : Sender = tell (send_packet c.payload) (
        tell (set_default_timestamp_increment step)
          (tell (set_default_mark c.marker) (count_packet s))) in
      let long : ltb (length c.payload) 4 ≡ false = ground arith in
      (
        after,
        send_rtp_data_lem answer c.payload c.marker s ∙ rw (long, accepted answer after ok) refl,
        refl,
        refl,
      )

  pub chunks-sent :
      (cs : List Chunk) (s : Sender) (count : ℕ) (calls : List HostCall)
      → AreEnough cs
      → (after : Sender) × (k : ℕ) × (later : List HostCall) × (send_chunks answer found cs
            (sending s)
            count
            calls
          ≡ some (sending after, k, later))
        × (wire net after.calls ≡ wire net s.calls ++ carry_all net (sent s.calls) cs)
        × GivesBack calls later
  unfolding send_byte
  chunks-sent [] s count calls enough =
      (s, count, calls, refl, sym (append-nil (wire net s.calls)), λ l. omega arith)
  chunks-sent (c ∷ cs) s count calls (long, enough) =
      let (mid, ran, added, next) = data_sent c s long in
      let back : List HostCall =
        release (byte_elements c.ref) ∷ get (byte_elements c.ref) ∷ calls in
      let (after, k, later, rest, more, kept) =
        chunks-sent cs mid ((if count % 100 == 0 then 0 else count) + 1) back enough in
      let one : GivesBack calls back = λ l. ground arith in
      (
        after,
        k,
        later,
        rw ran rest,
        more
            ∙ (ap (λ w. w ++ carry_all net (sent mid.calls) cs) added
                ∙ (append_assoc (wire net s.calls)
                      (carried net (sent s.calls) c.marker c.payload ∷ [])
                      (carry_all net (sent mid.calls) cs)
                    ∙ ap
                        (λ n.
                          wire net s.calls
                          ++ carried net (sent s.calls) c.marker c.payload ∷ carry_all net n cs)
                        next)),
        λ l. omega (arith, one l, kept l),
      )

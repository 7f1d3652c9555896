-- ===== src/Rtp/Receiver/Assemble/Progress.antt =====
-- Packets that end no frame are taken, whatever the buffer holds; and what any run of packets leaves.
use jrtplib4android.Prelude.{◌+◌, ◌-◌, ◌<◌, ◌≤◌, ◌≡◌, ◌⊎◌, false, some, ◌++◌, length, take, drop}
use jrtplib4android.Prelude.Bytes.{begins_with}
use jrtplib4android.Rtp.Receiver.State.{Receiver, PsBuffer, RtpPacket}
use jrtplib4android.Rtp.Receiver.Assemble.Frames.{pack_code}

-- A packet that does not end a frame.
abbrev pub EndsNothing : RtpPacket → PsBuffer → Type 0
EndsNothing p s = (s.ps_len ≡ 0) ⊎ (begins_with (drop 12 p.packet_data) pack_code ≡ some false)

-- What a buffer is after a packet was taken: the payload stands behind the bytes that it held; a packet
-- that is no longer than the RTP header changes nothing; where there is no room, the packet and the
-- bytes that the buffer held are dropped.
abbrev pub Takes : RtpPacket → (before after : PsBuffer) → Type 0
Takes p s u =
    let n = length p.packet_data in
    ((n ≤ 12) × (u ≡ s))
    ⊎ (((12 < n)
          × (s.ps_len + (n - 12) < 4194304)
          × (u.ps_len ≡ s.ps_len + (n - 12))
          × (take u.ps_len u.ps_buf ≡ take s.ps_len s.ps_buf ++ drop 12 p.packet_data))
        ⊎ ((12 < n) × (4194304 ≤ s.ps_len + (n - 12)) × (u.ps_len ≡ 0)))

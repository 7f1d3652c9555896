-- ===== src/Rtp/Sender/State.antt =====
-- The fields of `CRTPSender` (RtpSender.h). `has_env` says that `s_env` is not NULL and
-- `has_listener` that `s_jobj` is not; `calls` holds the calls made outside the object, the newest
-- first.
use jrtplib4android.Prelude.{ℕ, ◌+◌, ◌/◌, ◌%◌, Bool, List, ◌∷◌, ltb, ◌==◌, if◌then◌else◌}
use jrtplib4android.Prelude.Int.{ℤ}
use jrtplib4android.Rtp.Session.{Call, Answer}

pub record Sender : Type 0 where
  pub has_env : Bool
  pub init : Bool
  pub remote_ip : ℕ
  pub remote_port : ℕ
  pub count : ℕ
  pub frame_rate : ℕ
  pub has_listener : Bool
  pub is_attach : Bool
  pub calls : List Call

-- `MAX_RTP_PKT_LENGTH`, `SEND_LENGTH`, `H264` and `SSRC`.
abbrev pub max_rtp_pkt_length : ℕ
max_rtp_pkt_length = 1100

abbrev pub send_length : ℕ
send_length = 1150

abbrev pub h264 : ℕ
h264 = 96

abbrev pub ssrc : ℕ
ssrc = 100

-- A call whose status is not looked at.
abbrev pub tell : Call → Sender → Sender
tell c s = record s { calls = c ∷ s.calls }

-- The status of the newest call.
abbrev pub status : Answer → Sender → ℤ
status answer s = answer s.calls

-- The counter that decides which packets are logged.
unfoldable pub count_packet : Sender → Sender
count_packet s = record s { count = (if s.count % 100 == 0 then 0 else s.count) + 1 }

-- `90000 / mFrameRate`, or 3000 when no frame rate was given.
unfoldable pub timestamp_step : Sender → ℕ
timestamp_step s = if ltb 0 s.frame_rate then 90000 / s.frame_rate else 3000

-- ===== src/Rtp/Receiver/State.antt =====
-- The fields of `CRTPReceiver` (RtpReceiver.h) and the variables of RtpReceiver.cpp that hold the
-- stream. `has_env` says that `r_env` is not NULL and `has_listener` that `g_jobj` is not; `calls`
-- holds the calls made outside the object, the newest first.
use jrtplib4android.Prelude.{ℕ, ◌*◌, Bool, List, ◌∷◌}
use jrtplib4android.Prelude.Int.{ℤ}
use jrtplib4android.Rtp.Session.{Call, Answer}

pub record Receiver : Type 0 where
  pub has_env : Bool
  pub init : Bool
  pub has_listener : Bool
  pub last_seq : ℕ
  pub first_seq : Bool
  pub count : ℕ
  pub is_attach : Bool
  pub calls : List Call

-- `psBuf`, all of it, and `psLen`.
pub record PsBuffer : Type 0 where
  pub ps_buf : List ℕ
  pub ps_len : ℕ

-- `PS_BUF_SIZE`
abbrev pub ps_buf_size : ℕ
ps_buf_size = 1024 * 1024 * 4

-- `sizeof(RTP_header_t)`
abbrev pub rtp_head_len : ℕ
rtp_head_len = 12

-- What is asked of an `RTPPacket`: its whole data starts with the RTP header.
pub record RtpPacket : Type 0 where
  pub sequence_number : ℕ
  pub marker : Bool
  pub packet_data : List ℕ

abbrev pub tell : Call → Receiver → Receiver
tell c r = record r { calls = c ∷ r.calls }

abbrev pub status : Answer → Receiver → ℤ
status answer r = answer r.calls

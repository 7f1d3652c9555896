-- ===== src/Rtp/Session.antt =====
-- What the sender and the receiver call outside their own files: JRTPLIB's `RTPSession`, the Java
-- virtual machine and the Java listener. A call is recorded, and `Answer` gives its status from the
-- calls made so far, the newest first: the behaviour of these libraries is a parameter.
use jrtplib4android.Prelude.{
  ℕ, ◌+◌, ◌-◌, ◌%◌, ◌^◌, Bool, Option, none, some, List, ◌∷◌, if◌then◌else◌,
}
use jrtplib4android.Prelude.Int.{ℤ}
use jrtplib4android.Rtp.Common.{change_ip}

-- An IPv4 address and port, as `RTPIPv4Address` holds them.
pub record Address : Type 0 where
  pub ip : ℕ
  pub port : ℕ

-- The parameters that `Create` is given. `timestamp_rate` is the inverse of the timestamp unit.
pub record Params : Type 0 where
  pub ssrc : ℕ
  pub timestamp_rate : ℕ
  pub accept_own_packets : Bool
  pub bind_ip : Option ℕ
  pub port_base : ℕ

pub data Call : Type 0 where
  set_use_poll_thread : Bool → Call
  create : Params → Call
  add_destination : Address → Call
  delete_destination : Address → Call
  set_default_payload_type : ℕ → Call
  set_default_mark : Bool → Call
  set_timestamp_rate : ℕ → Call
  set_default_timestamp_increment : ℕ → Call
  send_packet : List ℕ → Call
  send_packet_with : List ℕ → ℕ → Bool → ℕ → Call
  bye_destroy : ℕ → Call
  attach_current_thread : Call
  detach_current_thread : Call
  receive_rtcp_data : List ℕ → Call
  receive_bye : List ℕ → Call
  receive_rtp_data : List ℕ → Bool → ℕ → Call

abbrev pub Answer : Type 0
Answer = List Call → ℤ

-- What the session knows of a source (`RTPSourceData`): the addresses that may be missing.
pub record SourceData : Type 0 where
  pub rtp_address : Option Address
  pub rtcp_address : Option Address

-- The address of a source: that of its RTP data, or else that of its RTCP data one port below
-- (`port - 1` in `uint16_t`).
unfoldable pub source_address : SourceData → Option Address
source_address d = elim d.rtp_address [
  | some a ↦ some a
  | none ↦ elim d.rtcp_address [
    | some a ↦ some (record a { port = (a.port + 2 ^ 16 - 1) % 2 ^ 16 })
    | none ↦ none
  ]
]

-- `callbackRtcp`: the listener's method for the kind of event, with the address as text.
pub data Notice : Type 0 where
  rtcp bye : Notice

unfoldable pub callback_rtcp : Bool → Notice → ℕ → List Call → List Call
callback_rtcp has_env rtcp ip calls =
    if has_env then receive_rtcp_data (change_ip ip) ∷ calls else calls
callback_rtcp has_env bye ip calls = if has_env then receive_bye (change_ip ip) ∷ calls else calls

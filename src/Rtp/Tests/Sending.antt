-- ===== src/Rtp/Tests/Sending.antt =====
-- The theorems on the sender, at concrete inputs.
use jrtplib4android.Rtp.Sender.Packet.{fu_packet}
use jrtplib4android.Prelude.Bytes.{slice}
use jrtplib4android.Jni.{HostCall, Object, Loan, Keeps, GivesBack, same, get, byte_elements}
use jrtplib4android.Rtp.Handle.{RtpHandle, init_send_handle, send_byte, fini_handle}
use jrtplib4android.Rtp.Handle.Loans.{has_sender, send_byte-Keeps}
use jrtplib4android.Rtp.Handle.Delivery.{
  Nalu, AreLong, none_left, one_more, Carries, sending, send_all, units-Carries,
}
use jrtplib4android.Prelude.{
  ◌/◌, ◌-◌, ◌*◌, ◌+◌, ◌<◌, ◌==◌, suc, if◌then◌else◌, none, ◌≤◌, ℕ, ◌≡◌, ◌↔◌, refl, Bool, true,
  false, some, List, [], ◌∷◌, ◌++◌, arith, length, replicate, length-replicate,
}
use jrtplib4android.Prelude.Int.{pos, is_negative}
use jrtplib4android.Rtp.Common.{write_octets, change_ip, check_error}
use jrtplib4android.Rtp.Common.Dotted.{read_dotted, read-change_ip}
use jrtplib4android.Rtp.Session.{
  Address, Answer, SourceData, source_address, set_use_poll_thread, create, add_destination,
  set_default_mark, send_packet,
}
use jrtplib4android.Rtp.Sender.State.{Sender, tell, timestamp_step, count_packet}
use jrtplib4android.Rtp.Sender.Send.{no_value, returned, send_h264_nalu}
use jrtplib4android.Rtp.Sender.Reader.{Packet, packets, join, total_increment}
use jrtplib4android.Rtp.Sender.Reassemble.{Accepts}
use jrtplib4android.Rtp.Sender.Nalu.{three, four, code_bytes, send_h264_nalu-join}
use jrtplib4android.Rtp.Sender.Faults.{
  send_h264_nalu-overrun, send_h264_nalu-single, send_h264_nalu-parameter_set,
}
use jrtplib4android.Rtp.Sender.{Setup, session_params, init_param}
use jrtplib4android.Rtp.Sender.Events.{
  here, next, thread_starts, setup, handle, IsAttached, Reaches-IsAttached, init_param_lem,
}

-- A session that accepts every call.
abbrev willing : Answer
willing calls = pos 0

abbrev fresh : Sender
fresh = record {
  has_env = false;
  init = false;
  remote_ip = 0;
  remote_port = 0;
  count = 0;
  frame_rate = 25;
  has_listener = false;
  is_attach = false;
  calls = [];
}

abbrev ready : Sender
ready = record fresh { has_env = true; init = true; is_attach = true }

accepts : Accepts willing
accepts calls = refl

abbrev long_nal : List ℕ
long_nal = 0x65 ∷ replicate 1100 7

-- Two fragments carry a NALU of 1101 bytes.
send_h264_nalu-join_example :
    (ps : List Packet) × (after : Sender) × (send_h264_nalu willing
        (code_bytes four ++ long_nal)
        (pos (length (code_bytes four ++ long_nal)))
        false
        ready
      ≡ some (no_value, after))
    × (packets after.calls ≡ packets ready.calls ++ ps)
    × (join ps ≡ some long_nal)
    × (total_increment ps ≡ timestamp_step ready)
send_h264_nalu-join_example =
    send_h264_nalu-join willing four 0x65 (replicate 1100 7) ready accepts (omega arith)
      (omega (arith, length-replicate {A = ℕ} 1100 7))
      (omega (arith, length-replicate {A = ℕ} 1100 7))

abbrev two_fragments : List ℕ
two_fragments = 0x65 ∷ replicate 2199 7

send_h264_nalu-overrun_example :
    let last = length two_fragments / 1100 - 1 in
    ((t : ℕ)
      → t < last
      → (payload : List ℕ) × (fu_packet two_fragments t 1100 (if t == 0 then 1 else 0) 0
          ≡ some payload))
    × (last * 1100 + 1 + 1100 ≡ suc (length two_fragments))
    × (slice two_fragments (last * 1100 + 1) 1100 ≡ none)
    × (fu_packet two_fragments last 1100 0 0 ≡ none)
    × (send_h264_nalu willing
          (code_bytes three ++ two_fragments)
          (pos (length (code_bytes three ++ two_fragments)))
          false
          ready
        ≡ none)
send_h264_nalu-overrun_example =
    send_h264_nalu-overrun willing three 0x65 (replicate 2199 7) ready accepts
      (omega (arith, length-replicate {A = ℕ} 2199 7))
      (omega (arith, length-replicate {A = ℕ} 2199 7))

send_h264_nalu-single_example :
    let sent =
      tell
        (send_packet (0x65 ∷ 0x65 ∷ 1 ∷ []))
        (tell (set_default_mark true) (count_packet ready)) in
    send_h264_nalu willing (code_bytes four ++ (0x65 ∷ 1 ∷ 2 ∷ [])) (pos 7) false ready
    ≡ some (returned (check_error (pos 0)), sent)
send_h264_nalu-single_example =
    send_h264_nalu-single willing four 0x65 (1 ∷ 2 ∷ []) ready (omega arith)

send_h264_nalu-parameter_set_example :
    let sent =
      tell (send_packet (0x67 ∷ 1 ∷ [])) (tell (set_default_mark false) (count_packet ready)) in
    send_h264_nalu willing (code_bytes four ++ (0x67 ∷ 1 ∷ [])) (pos 6) true ready
    ≡ some (returned (check_error (pos 0)), sent)
send_h264_nalu-parameter_set_example =
    send_h264_nalu-parameter_set willing four (0x67 ∷ 1 ∷ []) ready (omega arith)

read-change_ip_example :
    (read_dotted 0 0 (change_ip 0xC0A80101) ≡ 0xC0A80101)
    × (length (write_octets 4 0 [] 0xC0A80101) ≤ 16)
read-change_ip_example = read-change_ip 0xC0A80101 (omega arith)

abbrev target : Setup
target = record { dest_ip = 0xC0A80101; port_base = 5000; dst_port = 6000; frame_rate = 25 }

-- A sender that is set up and whose thread has started.
sender-IsAttached_example :
    IsAttached (handle willing thread_starts (handle willing (setup target) fresh))
sender-IsAttached_example =
    Reaches-IsAttached {answer = willing} {s = fresh}
      (next thread_starts (next (setup target) here)) (ground arith)

init_param_example :
    let polled = set_use_poll_thread true ∷ [] in
    let created = create (session_params target) ∷ polled in
    let added =
      add_destination (record { ip = target.dest_ip; port = target.dst_port }) ∷ created in
    let r = init_param willing target fresh in
    (fresh.init ≡ true → r ≡ (false, fresh))
    × ((r.0 ≡ true) ↔ (
        (fresh.init ≡ false)
        × (is_negative (willing polled) ≡ false)
        × (is_negative (willing created) ≡ false)
        × (is_negative (willing added) ≡ false)))
    × (r.0 ≡ true
        → (r.1.init ≡ true)
          × (r.1.remote_ip ≡ target.dest_ip)
          × (r.1.remote_port ≡ target.dst_port))
    × (r.0 ≡ false → r.1.init ≡ fresh.init)
init_param_example = init_param_lem willing target fresh

abbrev source : SourceData
source = record { rtp_address = none; rtcp_address = some (record { ip = 7; port = 6001 }) }

abbrev source_end : Address
source_end = record { ip = 7; port = 6000 }

found : source_address source ≡ some source_end
unfolding source_address
found = refl

-- Two units of 1101 bytes, sent through a handle.
abbrev units : List Nalu
units =
    record { ref = 1; code = four; first = 0x65; rest = replicate 1100 7 }
    ∷ record { ref = 2; code = three; first = 0x41; rest = replicate 1100 9 }
    ∷ []

units-AreLong : AreLong units
units-AreLong =
    one_more (omega arith) (omega (arith, length-replicate {A = ℕ} 1100 7))
      (omega (arith, length-replicate {A = ℕ} 1100 7))
      (one_more (omega arith) (omega (arith, length-replicate {A = ℕ} 1100 9))
        (omega (arith, length-replicate {A = ℕ} 1100 9)) none_left)

units-Carries_example :
    (h : RtpHandle) × (after ended : Sender) × (k : ℕ) × (begun later : List HostCall)
    × (init_send_handle willing target fresh 9 [] ≡ (some h, begun))
    × (send_all willing (λ calls. true) units h 0 begun ≡ some (sending after, k, later))
    × Carries units (packets after.calls)
    × (fini_handle (some (sending after)) ≡ (true, some (sending ended)))
    × (ended.init ≡ false)
    × (packets ended.calls ≡ packets after.calls)
unfolding packets
units-Carries_example =
    units-Carries willing (λ calls. true) target fresh units 0 9 [] accepts refl refl units-AreLong

-- An array of three bytes is refused, and not given back.
abbrev too_short : Object
too_short = record { ref = 5; elements = 0x41 ∷ 1 ∷ 2 ∷ [] }

refused :
    send_byte willing (λ calls. true) (some (sending ready)) too_short (pos 3) false false 0 []
    ≡ some (false, some (sending ready), 1, get (byte_elements 5) ∷ [])
unfolding send_byte send_h264_nalu
refused = refl

send_byte-Keeps_example :
    (has_sender (some (sending ready)) ≡ has_sender (some (sending ready)))
    × (false ≡ true
        → (has_sender (some (sending ready)) ≡ true) × GivesBack [] (get (byte_elements 5) ∷ []))
    × (false ≡ false
        → has_sender (some (sending ready)) ≡ true
        → Keeps 1 (byte_elements 5) [] (get (byte_elements 5) ∷ []))
    × ((l : Loan) → same l (byte_elements 5) ≡ false → Keeps 0 l [] (get (byte_elements 5) ∷ []))
    × (has_sender (some (sending ready)) ≡ false
        → (◌≡◌ {A = Bool} false false) × (get (byte_elements 5) ∷ [] ≡ []))
send_byte-Keeps_example =
    send_byte-Keeps willing (λ calls. true) (some (sending ready)) too_short (pos 3) false false 0
      [] false (some (sending ready)) 1 (get (byte_elements 5) ∷ []) refused

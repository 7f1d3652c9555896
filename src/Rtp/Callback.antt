-- ===== src/Rtp/Callback.antt =====
-- `SendCallback` and `ReceiveCallback` (send-callback.h, receive-callback.h, with their constructors in
-- RtpSender.cpp and RtpReceiver.cpp): the look-up of the listener's methods. What the Java virtual
-- machine finds is a parameter.
use jrtplib4android.Prelude.{ℕ, ◌≡◌, ◌≢◌, Bool, Option, none, some, arith, if◌then◌else◌}

-- The methods that are looked up.
data Method : Type 0 where
  receive_rtp_data receive_rtcp_data receive_bye : Method

-- Whether the object's class is found, and the methods of it that are.
record Listener : Type 0 where
  has_class : Bool
  method_id : Method → Option ℕ

-- A `jmethodID` field: never set, set to NULL, or set to a method.
data Slot : Type 0 where
  unset missing : Slot
  found : ℕ → Slot

record SendCallback : Type 0 where
  jmid_rtcp : Slot
  jmid_bye : Slot

record ReceiveCallback : Type 0 where
  jmid_rtp : Slot
  jmid_rtcp : Slot
  jmid_bye : Slot

abbrev slot : Option ℕ → Slot
slot none = missing
slot (some id) = found id

-- The look-ups stop at the first that fails.
unfoldable send_callback : Listener → SendCallback
send_callback l =
    if l.has_class
    then (elim (l.method_id receive_rtcp_data) [
      | none ↦ record { jmid_rtcp = missing; jmid_bye = unset }
      | some id ↦ record { jmid_rtcp = found id; jmid_bye = slot (l.method_id receive_bye) }
    ])
    else record { jmid_rtcp = unset; jmid_bye = unset }

unfoldable receive_callback : Listener → ReceiveCallback
receive_callback l =
    if l.has_class
    then (elim (l.method_id receive_rtp_data) [
      | none ↦ record { jmid_rtp = missing; jmid_rtcp = unset; jmid_bye = unset }
      | some rtp ↦ elim (l.method_id receive_rtcp_data) [
        | none ↦ record { jmid_rtp = found rtp; jmid_rtcp = missing; jmid_bye = unset }
        | some rtcp ↦ record {
          jmid_rtp = found rtp;
          jmid_rtcp = found rtcp;
          jmid_bye = slot (l.method_id receive_bye);
        }
      ]
    ])
    else record { jmid_rtp = unset; jmid_rtcp = unset; jmid_bye = unset }

-- A callback object whose last field is a method has all its methods, those of the listener.
callbacks_lem :
    (l : Listener) (id : ℕ)
    → ((send_callback l).jmid_bye ≡ found id
        → (l.method_id receive_bye ≡ some id)
          × (l.method_id receive_rtcp_data ≢ none)
          × ((send_callback l).jmid_rtcp ≡ slot (l.method_id receive_rtcp_data)))
      × ((receive_callback l).jmid_bye ≡ found id
          → (l.method_id receive_bye ≡ some id)
            × (l.method_id receive_rtp_data ≢ none)
            × (l.method_id receive_rtcp_data ≢ none)
            × ((receive_callback l).jmid_rtp ≡ slot (l.method_id receive_rtp_data))
            × ((receive_callback l).jmid_rtcp ≡ slot (l.method_id receive_rtcp_data)))
unfolding send_callback receive_callback
callbacks_lem l id = ground arith

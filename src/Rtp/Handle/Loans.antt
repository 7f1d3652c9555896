-- ===== src/Rtp/Handle/Loans.antt =====
-- Which arrays `sendByte_` keeps.
use jrtplib4android.Prelude.{ℕ, ◌≡◌, Bool, true, false, Option, none, some, List, arith}
use jrtplib4android.Prelude.Int.{ℤ}
use jrtplib4android.Jni.{Object, Keeps, GivesBack, HostCall, Loan, same, byte_elements}
use jrtplib4android.Rtp.Session.{Answer, Call}
use jrtplib4android.Rtp.Handle.{RtpHandle, send_byte}

abbrev pub has_sender : Option RtpHandle → Bool
has_sender none = false
has_sender (some h) = elim h.sender [ none ↦ false | some s ↦ true ]

-- `sendByte_`, if it is no fault, gives the array back when it returns true. When it returns false and
-- there is a sender, the array is taken once more than it is given back; without a sender it is not
-- taken at all. Nothing else is kept.
pub send_byte-Keeps :
    (answer : Answer) (found : List Call → Bool) (h : Option RtpHandle) (src : Object) (len : ℤ)
    (flag is_rtp_data : Bool) (count : ℕ) (calls : List HostCall) (sent : Bool)
    (next : Option RtpHandle) (k : ℕ) (after : List HostCall)
    → send_byte answer found h src len flag is_rtp_data count calls ≡ some (sent, next, k, after)
    → (has_sender next ≡ has_sender h)
      × (sent ≡ true → (has_sender h ≡ true) × GivesBack calls after)
      × (sent ≡ false → has_sender h ≡ true → Keeps 1 (byte_elements src.ref) calls after)
      × ((l : Loan) → same l (byte_elements src.ref) ≡ false → Keeps 0 l calls after)
      × (has_sender h ≡ false → (sent ≡ false) × (after ≡ calls))
unfolding send_byte
send_byte-Keeps answer found h src len flag is_rtp_data count calls sent next k after ran =
    ground arith

-- ===== src/Rtp/Receiver/Destinations.antt =====
-- To which addresses a receiver sends: the sources that are there.
use jrtplib4android.Prelude.{
  Bool, true, false, none, some, List, [], ◌∷◌, ◌==◌, ◌&&◌, if◌then◌else◌,
}
use jrtplib4android.Rtp.Session.{
  Address, Answer, Call, SourceData, source_address, add_destination, delete_destination,
  bye_destroy,
}
use jrtplib4android.Rtp.Receiver.State.{Receiver}
use jrtplib4android.Rtp.Receiver.Events.{
  Event, finish, new_source, removed_source, bye_packet, handle,
}

abbrev pub is_same : Address → Address → Bool
is_same a b = a.ip == b.ip && a.port == b.port

-- Whether an address is a destination of the session after some calls: `AddDestination` makes it one,
-- `DeleteDestination` and the end of the session make it none.
abbrev pub is_destination : Address → List Call → Bool
is_destination a [] = false
is_destination a (add_destination b ∷ calls) = if is_same a b then true else is_destination a calls
is_destination a (delete_destination b ∷ calls) =
    if is_same a b then false else is_destination a calls
is_destination a (bye_destroy n ∷ calls) = false
is_destination a (c ∷ calls) = is_destination a calls

abbrev pub is_at : Address → SourceData → Bool
is_at a d = elim (source_address d) [ none ↦ false | some b ↦ is_same a b ]

-- Whether a source is there at an address after some events, the newest first: it has appeared, and
-- since then it has neither left nor said goodbye, nor has the receiver ended.
abbrev pub is_there : Bool → Address → List Event → Bool
is_there before a [] = before
is_there before a (new_source d ∷ es) = if is_at a d then true else is_there before a es
is_there before a (removed_source d ∷ es) = if is_at a d then false else is_there before a es
is_there before a (bye_packet d ∷ es) = if is_at a d then false else is_there before a es
is_there before a (finish ∷ es) = false
is_there before a (e ∷ es) = is_there before a es

-- Events one after the other, the newest first.
abbrev pub run : Answer → List Event → Receiver → Receiver
run answer [] r = r
run answer (e ∷ es) r = handle answer e (run answer es r)

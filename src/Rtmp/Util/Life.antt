-- ===== src/Rtmp/Util/Life.antt =====
-- The life of an `RtmpUtils`: which states its operations lead to, and their failures.
use jrtplib4android.Prelude.{
  ℕ, suc, ◌+◌, ◌≡◌, Bool, true, false, Option, none, some, List, [], ◌∷◌, if◌then◌else◌, arith,
}
use jrtplib4android.Prelude.Int.{ℤ, pos}
use jrtplib4android.Rtmp.Util.State.{RtmpUtils, Packet, Library, Call, alloc, free}
use jrtplib4android.Rtmp.Util.{
  Result, init_rtmp_handle, send, push_sps_pps, push_h264_data, push_flv_data, release_rtmp_handle,
}

-- How many sessions librtmp has been asked for, and how many it was given back.
abbrev pub allocs : List Call → ℕ
allocs [] = 0
allocs (alloc ∷ calls) = suc (allocs calls)
allocs (_ ∷ calls) = allocs calls

abbrev pub frees : List Call → ℕ
frees [] = 0
frees (free ∷ calls) = suc (frees calls)
frees (_ ∷ calls) = frees calls

abbrev pub has_packet : Option Packet → Bool
has_packet none = false
has_packet (some p) = true

-- An object that is set up has a session and a packet, the only session that is not given back; one
-- that is not has neither a packet nor a session to give back.
abbrev pub IsSound : RtmpUtils → Type 0
IsSound u =
    (has_packet u.packet ≡ u.is_init)
    × (u.is_init ≡ true → u.rtmp ≡ true)
    × (allocs u.calls ≡ frees u.calls + (if u.is_init then 1 else 0))

module _ (library : Library) where
  pub sps_pps-IsSound :
      (sps : List ℕ) (sps_len : ℕ) (pps : List ℕ) (pps_len : ℕ) (u : RtmpUtils) (r : ℤ × RtmpUtils)
      → IsSound u
      → push_sps_pps library sps sps_len pps pps_len u ≡ some r
      → IsSound r.1
  unfolding push_sps_pps send
  sps_pps-IsSound sps sps_len pps pps_len u r h done = ground arith

  pub h264-IsSound :
      (nal_unit : List ℕ) (len : ℕ) (is_idr : Bool) (u : RtmpUtils) (r : ℤ × RtmpUtils)
      → IsSound u
      → push_h264_data library nal_unit len is_idr u ≡ some r
      → IsSound r.1
  unfolding push_h264_data send
  h264-IsSound nal_unit len is_idr u r h done = ground arith

  pub flv-IsSound :
      (buf : List ℕ) (len : ℕ) (u : RtmpUtils) (r : ℤ × RtmpUtils)
      → IsSound u
      → push_flv_data library buf len u ≡ some r
      → IsSound r.1
  unfolding push_flv_data send
  flv-IsSound buf len u r h done = ground arith

-- What can be asked of an object.
pub data Event : Type 0 where
  set_up : List ℕ → Event
  parameter_sets : List ℕ → ℕ → List ℕ → ℕ → Event
  nal_unit : List ℕ → ℕ → Bool → Event
  flv_tag : List ℕ → ℕ → Event
  release : Event

unfoldable pub handle : Library → Event → RtmpUtils → Result
handle library (set_up url) u = some (init_rtmp_handle library url u)
handle library (parameter_sets sps n pps m) u = push_sps_pps library sps n pps m u
handle library (nal_unit bytes n is_idr) u = push_h264_data library bytes n is_idr u
handle library (flv_tag buf n) u = push_flv_data library buf n u
handle library release u = some (pos 0, release_rtmp_handle u)

-- A step of one event that is no fault, and the states that such steps lead to.
pub data Reaches (library : Library) (u : RtmpUtils) : RtmpUtils → Type 0 where
  here : Reaches library u u
  next :
      {v : RtmpUtils} {r : ℤ × RtmpUtils} (e : Event)
      → Reaches library u v
      → handle library e v ≡ some r
      → Reaches library u (r.1)

handle-IsSound :
    (library : Library) (e : Event) (u : RtmpUtils) (r : ℤ × RtmpUtils)
    → IsSound u
    → handle library e u ≡ some r
    → IsSound r.1
unfolding handle init_rtmp_handle release_rtmp_handle
handle-IsSound library (set_up url) u r h done = ground arith
handle-IsSound library (parameter_sets sps n pps m) u r h done =
    sps_pps-IsSound library sps n pps m u r h done
handle-IsSound library (nal_unit bytes n is_idr) u r h done =
    h264-IsSound library bytes n is_idr u r h done
handle-IsSound library (flv_tag buf n) u r h done = flv-IsSound library buf n u r h done
handle-IsSound library release u r h done = ground arith

-- Whatever is asked of an object, whatever the library answers, it stays sound: while it is set up
-- it has a packet and exactly one session that was not given back, otherwise it has no packet and
-- every session was given back.
pub Reaches-IsSound :
    {library : Library} {u v : RtmpUtils} → Reaches library u v → IsSound u → IsSound v
Reaches-IsSound here h = h
Reaches-IsSound {library} (next {v} {r} e reached done) h =
    handle-IsSound library e v r (Reaches-IsSound reached h) done

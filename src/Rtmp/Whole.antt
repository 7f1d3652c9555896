-- ===== src/Rtmp/Whole.antt =====
-- A broadcast through RtmpHandle.cpp, from the set-up to the release.
use jrtplib4android.Prelude.{
  ℕ, ◌+◌, ◌^◌, ◌<◌, ◌≤◌, ◌≡◌, refl, ap, subst, ◌∙◌, true, false, none, some, List, [], ◌∷◌, ◌++◌,
  length, arith,
}
use jrtplib4android.Prelude.Int.{pos}
use jrtplib4android.Jni.{HostCall, Object, GivesBack}
use jrtplib4android.Rtmp.Util.State.{
  packet_free, free, close, RtmpUtils, Packet, Library, IsLibrary,
}
use jrtplib4android.Rtmp.Util.{release_rtmp_handle}
use jrtplib4android.Rtmp.Util.Avc.{sent_bytes, read_config}
use jrtplib4android.Rtmp.Util.Life.{IsSound, has_packet, allocs, frees}
use jrtplib4android.Rtmp.Handle.{init_handle, push_sps_pps_handle, release_handle}
use jrtplib4android.Rtmp.Handle.Guarded.{mutex_is}
use jrtplib4android.Rtmp.Broadcast.Begin.{new-object, sets-received}
use jrtplib4android.Rtmp.Broadcast.{
  Unit264, array, push_units, sent_packets, Plays, Fit, Succeeds, units-received,
}

-- What a release does of an object that has its packet.
released :
    (u : RtmpUtils)
    → IsSound u
    → has_packet u.packet ≡ true
    → (last : RtmpUtils) × (release_handle (some u) ≡ some last)
      × (last.is_init ≡ false)
      × (last.packet ≡ none)
      × (last.calls ≡ packet_free ∷ free ∷ close ∷ u.calls)
      × (allocs last.calls ≡ frees last.calls)
unfolding release_handle release_rtmp_handle
released u sound ready =
    (release_rtmp_handle u, refl, ground arith, ground arith, ground arith, ground arith)

-- With a library where every call succeeds, a new object that has sent nothing, and the mutex free:
-- Java sets the object up, pushes an SPS and a PPS that fit into the packet, both shorter than 65536
-- bytes, then NAL units that fit, and releases the object. Every push returns 0. The packets sent, in
-- order, are one from which a player reads back the profile, compatibility and level bytes, the SPS
-- and the PPS, and one for each unit, from which it reads back the unit and whether it is a key frame,
-- 40 ms after the one before. The mutex is free in the end and Java has every array and text back. The
-- release closes the connection, frees the session and frees the packet, each once, and nothing else;
-- then the object has no packet, and every session was freed.
pub broadcast-received :
    (library : Library) (url : Object) (fresh : RtmpUtils)
    (first profile compatibility level sps_ref pps_ref : ℕ) (more pps : List ℕ) (ns : List Unit264)
    (calls : List HostCall)
    → let sps = first ∷ profile ∷ compatibility ∷ level ∷ more in
      IsLibrary library
      → Succeeds library
      → fresh.is_init ≡ false
      → IsSound fresh
      → sent_packets fresh.calls ≡ []
      → length sps + length pps + 16 ≤ 524288
      → length sps < 2 ^ 16
      → length pps < 2 ^ 16
      → Fit ns
      → mutex_is false calls ≡ true
      → (v w after last : RtmpUtils) × (began set later : List HostCall) × (c : Packet) × (qs : List
          Packet)
        × (init_handle library url fresh calls ≡ (some v, began))
        × (push_sps_pps_handle library
              (some v)
              (array sps_ref sps)
              (length sps)
              true
              (array pps_ref pps)
              (length pps)
              began
            ≡ some (pos 0, some w, set))
        × (push_units library ns w set ≡ some (after, later))
        × (release_handle (some after) ≡ some last)
        × (sent_packets after.calls ≡ c ∷ qs)
        × (read_config (sent_bytes c) ≡ some (profile ∷ compatibility ∷ level ∷ [], sps, pps))
        × (c.time_stamp ≡ 0)
        × Plays fresh.timestamp ns qs
        × (mutex_is false later ≡ true)
        × GivesBack calls later
        × (last.is_init ≡ false)
        × (last.packet ≡ none)
        × (last.calls ≡ packet_free ∷ free ∷ close ∷ after.calls)
        × (allocs last.calls ≡ frees last.calls)
broadcast-received library url fresh first profile compatibility level sps_ref pps_ref more pps ns
      calls is_library succeeds new sound quiet size small_sps small_pps fit free_now =
    let (v, p, began, made, ready, room, time, sent, v_sound, v_free, v_back) =
      new-object library is_library succeeds url fresh calls new in
    let (c, w, set, read, stamp, c_room, pushed, w_ready, w_time, w_sent, w_kept) =
      sets-received library is_library succeeds first profile compatibility level sps_ref pps_ref
        more pps v p began ready (omega (arith, room, size)) small_sps small_pps (v_sound sound)
        (v_free free_now) in
    let (kept, held, gives) = w_kept in
    let (after, later, qs, ran, out, plays, ready_still, all_kept) =
      units-received library is_library succeeds ns w c set w_ready (c_room ∙ room) fit kept held in
    let (is_sound, is_free, back) = all_kept in
    let (last, done, over, no_packet, given, no_session) = released after is_sound ready_still in
    (
      v,
      w,
      after,
      last,
      began,
      set,
      later,
      c,
      qs,
      made,
      pushed,
      ran,
      done,
      out ∙ ap (λ ps. ps ++ qs) (w_sent ∙ ap (λ ps. ps ++ c ∷ []) (sent ∙ quiet)),
      read,
      stamp,
      subst (λ t. Plays t ns qs) (w_time ∙ time) plays,
      is_free,
      λ l. omega (arith, v_back l, gives l, back l),
      over,
      no_packet,
      given,
      no_session,
    )

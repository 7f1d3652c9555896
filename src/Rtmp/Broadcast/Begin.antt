-- ===== src/Rtmp/Broadcast/Begin.antt =====
-- How a broadcast begins: the set-up, and the push of the parameter sets.
use jrtplib4android.Prelude.{
  ℕ, ◌+◌, ◌*◌, ◌^◌, ◌<◌, ◌≤◌, ◌≡◌, refl, ap, ◌∙◌, true, false, none, some, List, [], ◌∷◌, ◌++◌,
  ◌==◌, if◌then◌else◌, length, arith,
}
use jrtplib4android.Prelude.Int.{pos, negsuc}
use jrtplib4android.Jni.{
  HostCall, get, release, utf_chars, Object, Loan, GivesBack, lock, unlock, byte_elements, get_all,
  release_all,
}
use jrtplib4android.Rtmp.Util.State.{
  RtmpUtils, alloc, setup_url, enable_write, connect, connect_stream, Packet, Library, IsLibrary,
  Call, send_packet, is_connected, empty_packet, prepare, tell,
}
use jrtplib4android.Rtmp.Util.{init_rtmp_handle}
use jrtplib4android.Rtmp.Util.Avc.{sent_bytes, read_config}
use jrtplib4android.Rtmp.Util.Avc.Sets.{push_sps_pps-read}
use jrtplib4android.Rtmp.Util.Life.{IsSound, release}
use jrtplib4android.Rtmp.Handle.{under_lock, init_handle, push_sps_pps_handle}
use jrtplib4android.Rtmp.Handle.Guarded.{IsKept, mutex_is, pushes-IsKept}
use jrtplib4android.Rtmp.Broadcast.{array, sent_packets, Succeeds, send-succeeds}

abbrev read_text : ℕ → List HostCall → List HostCall
read_text ref calls = release (utf_chars ref) ∷ get (utf_chars ref) ∷ calls

module _ (library : Library) (is_library : IsLibrary library) (succeeds : Succeeds library) where
  -- What a new object is after its set-up.
  pub new-object :
      (url : Object) (fresh : RtmpUtils) (calls : List HostCall)
      → fresh.is_init ≡ false
      → (v : RtmpUtils) × (p : Packet) × (began : List HostCall) × (init_handle library url fresh
            calls
          ≡ (some v, began))
        × (v.packet ≡ some p)
        × (length p.body ≡ 524288)
        × (v.timestamp ≡ fresh.timestamp)
        × (sent_packets v.calls ≡ sent_packets fresh.calls)
        × (IsSound fresh → IsSound v)
        × (mutex_is false calls ≡ true → mutex_is false began ≡ true)
        × GivesBack calls began
  unfolding init_handle init_rtmp_handle
  new-object url fresh calls new =
      let asked : List Call = setup_url url.elements ∷ alloc ∷ fresh.calls in
      let wanted : List Call = connect ∷ enable_write ∷ asked in
      let p : Packet = prepare library.stream_id (empty_packet library (1024 * 512)) in
      let v : RtmpUtils = record fresh {
        is_init = true;
        rtmp = true;
        packet = some p;
        calls = connect_stream ∷ wanted;
      } in
      let made : init_rtmp_handle library url.elements fresh ≡ (pos 0, v) =
        simp (new, succeeds asked, succeeds wanted, succeeds (connect_stream ∷ wanted)) in
      (
        v,
        p,
        read_text url.ref calls,
        ap
            (λ m. (
              elim m.0 [ pos n ↦ if n == 0 then some (m.1) else none | negsuc n ↦ none ],
              read_text url.ref calls,
            ))
            made,
        refl,
        ap length (is_library.reset-body (library.allocated (1024 * 512)))
            ∙ is_library.allocated-room (1024 * 512),
        refl,
        refl,
        λ sound. ground arith,
        λ free_now. ground arith,
        λ l. ground arith,
      )

  pub sets-received :
      (first profile compatibility level sps_ref pps_ref : ℕ) (more pps : List ℕ) (u : RtmpUtils)
      (p : Packet) (calls : List HostCall)
      → let sps = first ∷ profile ∷ compatibility ∷ level ∷ more in
        u.packet ≡ some p
        → length sps + length pps + 16 ≤ length p.body
        → length sps < 2 ^ 16
        → length pps < 2 ^ 16
        → IsSound u
        → mutex_is false calls ≡ true
        → (q : Packet) × (w : RtmpUtils) × (after : List HostCall) × (read_config (sent_bytes q)
            ≡ some (profile ∷ compatibility ∷ level ∷ [], sps, pps))
          × (q.time_stamp ≡ 0)
          × (length q.body ≡ length p.body)
          × (push_sps_pps_handle library
                (some u)
                (array sps_ref sps)
                (length sps)
                true
                (array pps_ref pps)
                (length pps)
                calls
              ≡ some (pos 0, some w, after))
          × (w.packet ≡ some q)
          × (w.timestamp ≡ u.timestamp)
          × (sent_packets w.calls ≡ sent_packets u.calls ++ q ∷ [])
          × IsKept calls (pos 0, some w, after)
  unfolding push_sps_pps_handle under_lock
  sets-received first profile compatibility level sps_ref pps_ref more pps u p calls ready size
        small_sps small_pps sound free_now =
      let sps : List ℕ = first ∷ profile ∷ compatibility ∷ level ∷ more in
      let (q, read, time, room, ran) =
        push_sps_pps-read library first profile compatibility level more pps u p ready size
          small_sps small_pps in
      let w : RtmpUtils = tell (send_packet q) (tell is_connected (record u { packet = some q })) in
      let loans : List Loan = byte_elements sps_ref ∷ byte_elements pps_ref ∷ [] in
      let back : List HostCall = unlock ∷ release_all loans (get_all loans (lock ∷ calls)) in
      let pushed : push_sps_pps_handle library (some u) (array sps_ref sps) (length sps) true
            (array pps_ref pps) (length pps) calls
          ≡ some (pos 0, some w, back) =
        rw (ran, send-succeeds library is_library succeeds q u) refl in
      (
        q,
        w,
        back,
        read,
        time,
        room,
        pushed,
        refl,
        refl,
        refl,
        (pushes-IsKept library (some u) calls (pos 0, some w, back) sound free_now).0
            (array sps_ref sps) (length sps) true (array pps_ref pps) (length pps) pushed,
      )

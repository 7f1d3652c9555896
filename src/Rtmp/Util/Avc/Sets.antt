-- ===== src/Rtmp/Util/Avc/Sets.antt =====
-- The AVC sequence header that `PushSPSPPS` sends.
use jrtplib4android.Prelude.{
  ℕ, ◌+◌, ◌^◌, ◌≤◌, ◌<◌, ◌≡◌, refl, sym, ap, ◌∙◌, some, List, [], ◌∷◌, ◌++◌, arith, length, take,
  drop, get_elem?, length-append, length-drop, append-nil, append_assoc,
}
use jrtplib4android.Prelude.Bytes.{slice, blit-in, slice-middle, take-length, get_elem?-append}
use jrtplib4android.Rtmp.Util.State.{RtmpUtils, Packet, Library}
use jrtplib4android.Rtmp.Util.{byte_of, send, push_sps_pps}
use jrtplib4android.Rtmp.Util.Avc.{sent_bytes, read_config, slice-whole, two-bytes}

-- The two length fields and the parameter sets.
sets_bytes : List ℕ → List ℕ → List ℕ
sets_bytes sps pps =
    byte_of 8 (length sps)
    ∷ byte_of 0 (length sps)
    ∷ (sps ++ (0x01 ∷ byte_of 8 (length pps) ∷ byte_of 0 (length pps) ∷ pps))

config_bytes : ℕ → ℕ → ℕ → List ℕ → List ℕ → List ℕ
config_bytes profile compatibility level sps pps =
    0x17
    ∷ 0x00
    ∷ 0x00
    ∷ 0x00
    ∷ 0x00
    ∷ 0x01
    ∷ profile
    ∷ compatibility
    ∷ level
    ∷ 0xFF
    ∷ 0xE1
    ∷ sets_bytes sps pps

config_bytes-read :
    (profile compatibility level : ℕ) (sps pps : List ℕ)
    → length sps < 2 ^ 16
    → length pps < 2 ^ 16
    → read_config (config_bytes profile compatibility level sps pps)
      ≡ some (profile ∷ compatibility ∷ level ∷ [], sps, pps)
unfolding read_config config_bytes sets_bytes
config_bytes-read profile compatibility level sps pps small_sps small_pps = rw (
  two-bytes (length sps) small_sps,
  found_sps,
  behind (2 + length sps) 0 (omega arith),
  behind (3 + length sps) 1 (omega arith),
  behind (3 + length sps + 1) 2 (omega arith),
  two-bytes (length pps) small_pps,
  found_pps,
)
  where
    before : List ℕ
    before = byte_of 8 (length sps) ∷ byte_of 0 (length sps) ∷ sps

    tail : List ℕ
    tail = 0x01 ∷ byte_of 8 (length pps) ∷ byte_of 0 (length pps) ∷ pps

    found_sps : slice (sets_bytes sps pps) 2 (length sps) ≡ some sps
    found_sps =
        slice-middle (byte_of 8 (length sps) ∷ byte_of 0 (length sps) ∷ []) sps tail 2 (length sps)
          refl refl

    behind :
        (i j : ℕ) → i ≡ 2 + length sps + j → get_elem? (sets_bytes sps pps) i ≡ get_elem? tail j
    behind i j e = get_elem?-append before tail i j (omega arith)

    found_pps : slice (sets_bytes sps pps) (5 + length sps) (length pps) ≡ some pps
    found_pps =
        let shape : sets_bytes sps pps
            ≡ (before ++ (0x01 ∷ byte_of 8 (length pps) ∷ byte_of 0 (length pps) ∷ []))
              ++ (pps ++ []) =
          simp (append_assoc, append-nil) in
        rw shape (
          slice-middle (before ++ (0x01 ∷ byte_of 8 (length pps) ∷ byte_of 0 (length pps) ∷ [])) pps
            [] (5 + length sps) (length pps)
            (omega (
              arith,
              length-append before (0x01 ∷ byte_of 8 (length pps) ∷ byte_of 0 (length pps) ∷ []),
            ))
            refl)

-- `PushSPSPPS`, set up and with room, fills a packet from which a player reads back the profile,
-- compatibility and level bytes of the SPS, the SPS and the PPS, both shorter than 65536 bytes,
-- stamps it with time 0, and sends it, or fails as `send` does; the packet keeps its room.
pub push_sps_pps-read :
    (library : Library) (first profile compatibility level : ℕ) (more pps : List ℕ) (u : RtmpUtils)
    (p : Packet)
    → let sps = first ∷ profile ∷ compatibility ∷ level ∷ more in
      u.packet ≡ some p
      → length sps + length pps + 16 ≤ length p.body
      → length sps < 2 ^ 16
      → length pps < 2 ^ 16
      → (q : Packet) × (read_config (sent_bytes q)
          ≡ some (profile ∷ compatibility ∷ level ∷ [], sps, pps))
        × (q.time_stamp ≡ 0)
        × (length q.body ≡ length p.body)
        × (push_sps_pps library sps (length sps) pps (length pps) u ≡ some (send library q u))
unfolding push_sps_pps config_bytes sets_bytes
push_sps_pps-read library first profile compatibility level more pps u p ready room small_sps
      small_pps =
    (
      q,
      ap read_config front
          ∙ config_bytes-read profile compatibility level sps pps small_sps small_pps,
      refl,
      omega (arith, length-append bytes behind, length-drop (0 + length bytes) p.body, size),
      rw (ready, slice-whole sps, slice-whole pps, blit-in p.body 0 bytes (omega (arith, size))),
    )
  where
    sps : List ℕ
    sps = first ∷ profile ∷ compatibility ∷ level ∷ more

    bytes : List ℕ
    bytes = config_bytes profile compatibility level sps pps

    size : length bytes ≡ length sps + length pps + 16
    size =
        omega
          (arith, length-append sps (0x01 ∷ byte_of 8 (length pps) ∷ byte_of 0 (length pps) ∷ pps))

    behind : List ℕ
    behind = drop (0 + length bytes) p.body

    front : take (length sps + length pps + 16) (bytes ++ behind) ≡ bytes
    front = ap (λ n. take n (bytes ++ behind)) (sym size) ∙ take-length bytes behind

    q : Packet
    q = record {
      has_abs_timestamp = 1;
      channel = 0x04;
      info_field2 = library.stream_id;
      header_type = 1;
      time_stamp = 0;
      packet_type = 0x09;
      body_size = length sps + length pps + 16;
      body = bytes ++ behind;
    }

-- ===== src/Source/Written.antt =====
-- A key frame with its sets of parameters, written to a private source.
use mgw.Prelude.{
  ℕ, ◌+◌, ◌-◌, ◌^◌, ◌≤◌, ◌<◌, ◌≡◌, refl, true, false, inl, inr, Option, some, List, ◌∷◌, length,
  arith,
}
use mgw.Prelude.Int.{pos}
use mgw.Codec.Startcode.{Bytes, get_startcode_len}
use mgw.Codec.Startcode.Search.{get_startcode_len_three, get_startcode_len_four}
use mgw.Codec.Nals.{bytes_at, parse_avc_header}
use mgw.Codec.Nals.Stream.{Stream, Prefix}
use mgw.Codec.Nals.Walk.{last_unit}
use mgw.Codec.Nals.Header.{read_avc_config, read_avc_config-length, parse_avc_header-Stream}
use mgw.Flv.{EncoderType, encoder_video}
use mgw.StreamBuff.{Memory}
use mgw.PacketRing.{RingBuffer}
use mgw.RtmpStream.{frame_priority_low}
use mgw.Source.{
  Source, SourcePacket, mgw_source_set_video_extra_data, get_header_internal, take_header,
  store_packet, mgw_source_write_packet,
}

-- A packet that begins with a start code.
coded_packet :
    (m : Bytes) (p start : ℕ)
    → Prefix m p start
    → (k : ℕ) × (get_startcode_len m p ≡ pos k) × (0 < k)
coded_packet m p start (inl (at, code)) = (3, get_startcode_len_three m p code, omega arith)
coded_packet m p start (inr (at, z, code)) = (4, get_startcode_len_four m p z code, omega arith)

-- The header that a parsed packet leaves.
take_header-parsed :
    (m : Bytes) (fuel : ℕ) (p : SourcePacket) (s : Source) (k : ℕ) (header : List ℕ)
    → s.is_private ≡ true
    → s.info_impl ≡ false
    → s.is_h264 ≡ true
    → p.kind ≡ encoder_video
    → p.keyframe ≡ true
    → get_startcode_len m p.address ≡ pos k
    → 0 < k
    → parse_avc_header m fuel p.address p.size ≡ some (some header)
    → 4 < length header
    → take_header m fuel p s
      ≡ some (record s { video_header = header }, record p { priority = frame_priority_low })
unfolding take_header mgw_source_set_video_extra_data
take_header-parsed m fuel p s k header private no_impl h264 video key code positive parsed long =
    ground (arith, private, no_impl, h264, video, key, code, positive, parsed, long)

-- A key frame of H.264, a byte stream of NAL units with both sets of parameters, written to a private source: the packet
-- goes into its ring with the low priority, whatever it had, and the video header that the source hands out from
-- then on is a decoder configuration record in which a reader finds the last two sets, byte for byte. Conditions: the SPS has 4 to 65535 bytes,
-- the PPS at most 65535, and the loop has more rounds than there are units.
pub mgw_source_write_packet-Stream :
    (now fuel : ℕ) (m : Bytes) (p : SourcePacket) (s : Source) (rb : RingBuffer) (block : Memory)
    (start end : ℕ) (units : List (ℕ × ℕ)) (sps sps_end pps pps_end : ℕ)
    → s.is_private ≡ true
    → s.info_impl ≡ false
    → s.is_h264 ≡ true
    → s.buffer ≡ some rb
    → p.kind ≡ encoder_video
    → p.keyframe ≡ true
    → ((q : ℕ) → m q < 256)
    → 6 ≤ p.address + p.size
    → Stream m (p.address + p.size) p.address ((start, end) ∷ units)
    → 1 + length units < fuel
    → last_unit m 7 ((start, end) ∷ units) ≡ some (sps, sps_end)
    → last_unit m 8 ((start, end) ∷ units) ≡ some (pps, pps_end)
    → 4 ≤ sps_end - sps
    → sps_end - sps < 2 ^ 16
    → pps_end - pps < 2 ^ 16
    → (header : List ℕ) × (mgw_source_write_packet now fuel m p s block
        ≡ store_packet now m
            (record p { priority = frame_priority_low })
            rb
            block
            (record s { video_header = header }))
      × ((get_extra_data : EncoderType → List ℕ) (buffer : Option RingBuffer)
          → get_header_internal get_extra_data
              (record s { video_header = header; buffer = buffer })
              encoder_video
            ≡ some header)
      × (read_avc_config header
          ≡ some (record {
            version = 1;
            profile = m (sps + 1);
            compatibility = m (sps + 2);
            level = m (sps + 3);
            length_size = 4;
            sps = bytes_at m sps (sps_end - sps);
            pps = bytes_at m pps (pps_end - pps);
          }))
unfolding mgw_source_write_packet get_header_internal
mgw_source_write_packet-Stream now fuel m p s rb block start end units sps sps_end pps pps_end
      private no_impl h264 ring video key bytes high h f l7 l8 h4 hs hp =
    let (header, parsed, read) =
      parse_avc_header-Stream m p.address p.size fuel ((start, end) ∷ units) sps sps_end pps pps_end
        bytes high h (omega (arith, f)) l7 l8 h4 hs hp in
    let (k, code, positive) = coded_packet m p.address start h.0 in
    let taken =
      take_header-parsed m fuel p s k header private no_impl h264 video key code positive parsed
        (read_avc_config-length header _ read) in
    (
      header,
      rw (mgw_source_write_packet, ring, taken) refl,
      (λ get_extra_data buffer. ground (arith, private)),
      read,
    )

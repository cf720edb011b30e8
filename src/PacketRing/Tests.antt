-- ===== src/PacketRing/Tests.antt =====
-- Packets through a ring of the sample block and the sample sorter.
use mgw.Prelude.{◌≡◌, refl, inl, inr, true, false, ◌⊎◌, none, some, [], ◌∷◌, ◌++◌, map, arith}
use mgw.Prelude.Int.{pos}
use mgw.StreamBuff.{Memory}
use mgw.StreamBuff.Samples.{
  frame1, frame2, three, reader_at, three-IsReady, held1, held2, three_stops,
}
use mgw.StreamBuff.Window.{IsReady, Window}
use mgw.StreamSort.Put.Samples.{two_nodes, two_nodes-Sorted, third, after_third, put_third}
use mgw.StreamSort.Sorted.{Sorted}
use mgw.StreamSort.Order.{Ordered, times, frame_times}
use mgw.PacketRing.{
  encoder_video, encoder_audio, Packet, RingBuffer, buff_frame, sort_frame, sorted_frame,
  frame_type, type_code, code_type, callback_answer, write_packet, mgw_rb_read_packet, consume_perr,
}
use mgw.PacketRing.Kinds.{as_read}
use mgw.PacketRing.Written.{Takes, TakesAll, write_packet-Window, write_packet-read_packet}
use mgw.StreamSort

-- The packet of frame 3, and one for the sorter.
abbrev key_packet : Packet
key_packet = record {
  packet_data = 0 ∷ 0 ∷ 1 ∷ 5 ∷ 7 ∷ 7 ∷ [];
  size = 6;
  pts = 40;
  encoder = encoder_video;
  keyframe = true;
  priority = 2;
}

abbrev late_packet : Packet
late_packet = record {
  packet_data = 7 ∷ 8 ∷ [];
  size = 2;
  pts = 300;
  encoder = encoder_video;
  keyframe = false;
  priority = 1;
}

abbrev empty_packet : Packet
empty_packet = record {
  packet_data = [];
  size = 0;
  pts = 0;
  encoder = encoder_audio;
  keyframe = false;
  priority = 0;
}

abbrev straight : RingBuffer
straight = record { sort = false; reader = none; sort_list = none }

abbrev sorting : RingBuffer
sorting = record { sort = true; reader = none; sort_list = some two_nodes }

abbrev reading : RingBuffer
reading = record { sort = false; reader = some (reader_at 3); sort_list = none }

-- A writer cannot read.
write_only : (mgw_rb_read_packet (some straight) three (some empty_packet)).0 ≡ consume_perr
unfolding mgw_rb_read_packet
write_only = refl

key_packet-Takes : Takes three (frame1 ∷ frame2 ∷ []) (buff_frame key_packet)
unfolding buff_frame frame_type
key_packet-Takes = record {
  some_bytes = omega arith;
  half = omega arith;
  room = omega arith;
  slots = omega arith;
  count = omega arith;
  stops = three_stops;
}

write_packet-read_packet_example :
    (m' : Memory) × (write_packet 0 straight three key_packet ≡ some (0, (straight, m')))
    × (mgw_rb_read_packet (some reading) m' (some empty_packet)
        ≡ (pos 6, (some (as_read key_packet), some record reading { reader = some (reader_at 4) })))
write_packet-read_packet_example =
    write_packet-read_packet 0 straight reading (reader_at 3) three key_packet empty_packet
      (frame1 ∷ frame2 ∷ []) 1 6 refl refl three-IsReady (held1, (held2, (refl, refl)))
      key_packet-Takes refl refl (omega arith) (inl refl)

same_third : sort_frame late_packet ≡ third
unfolding sort_frame frame_type type_code
same_third = refl

put_late :
    StreamSort.Put.put_frame_stream_sort (callback_answer 20) 12 two_nodes (sort_frame late_packet)
    ≡ some after_third
put_late = rw same_third (put_third (callback_answer 20))

takes_first : TakesAll three (frame1 ∷ frame2 ∷ []) after_third.delivered
unfolding sorted_frame code_type
takes_first = (
  record {
    some_bytes = omega arith;
    half = omega arith;
    room = omega arith;
    slots = omega arith;
    count = omega arith;
    stops = inr (omega arith);
  },
  tt,
)

write_packet-Window_example :
    (m' : Memory) × (write_packet 12 sorting three late_packet
      ≡ some (0, (record sorting { sort_list = some after_third.buff }, m')))
    × IsReady m'
    × Window m' 1 6 ((frame1 ∷ frame2 ∷ []) ++ map sorted_frame after_third.delivered)
    × Sorted after_third.buff
    × ((after_third.delivered ≡ [])
        ⊎ Ordered 50 (frame_times after_third.delivered ++ times after_third.buff.phead))
write_packet-Window_example =
    write_packet-Window 12 sorting two_nodes after_third three late_packet (frame1 ∷ frame2 ∷ []) 1
      6 refl refl two_nodes-Sorted put_late three-IsReady (held1, (held2, (refl, refl))) takes_first

-- ===== src/SrtStream/Tests.antt =====
-- Datagrams of a stream whose payload is seven packets.
use mgw.Prelude.{◌≡◌, refl, true, false, [], ◌∷◌, arith}
use mgw.Prelude.Int.{pos, negsuc}
use mgw.SrtStream.{
  SrtStream, write_data, send_payloads, send_packets, send_all, srt_stream_proc_packet,
}
use mgw.SrtStream.Cuts.{Cut, srt_stream_proc_packet-Cut}

abbrev live : SrtStream
live = record {
  running = true;
  disconnected = false;
  send_error_cnt = 0;
  total_sent_bytes = 0;
  left_data = 71 ∷ 1 ∷ [];
  written = [];
}

-- Three bytes are kept behind the two.
keeps_five :
    (srt_stream_proc_packet (λ n. pos 0) 1316 (2 ∷ 3 ∷ 4 ∷ []) live).1.left_data
    ≡ 71 ∷ 1 ∷ 2 ∷ 3 ∷ 4 ∷ []
unfolding srt_stream_proc_packet send_all send_payloads send_packets write_data
keeps_five = refl

-- With a payload of two bytes, for the loop.
three_writes :
    (srt_stream_proc_packet (λ n. negsuc 0) 2 (2 ∷ 3 ∷ 4 ∷ []) live).1.written
    ≡ (71 ∷ 1 ∷ []) ∷ (2 ∷ 3 ∷ []) ∷ []
unfolding srt_stream_proc_packet send_all send_payloads send_packets write_data
three_writes = refl

too_many_errors :
    srt_stream_proc_packet (λ n. pos 0) 1316 [] (record live { send_error_cnt = 101 })
    ≡ (pos 0, record live { disconnected = true })
unfolding srt_stream_proc_packet
too_many_errors = refl

-- Each write is refused with an error that is counted.
srt_stream_proc_packet-Cut_example :
    Cut 2 live
      (71 ∷ 1 ∷ 2 ∷ 3 ∷ 4 ∷ [])
      3
      (srt_stream_proc_packet (λ n. negsuc 0) 2 (2 ∷ 3 ∷ 4 ∷ []) live)
srt_stream_proc_packet-Cut_example =
    srt_stream_proc_packet-Cut (λ n. negsuc 0) 2 (λ n. refl) (2 ∷ 3 ∷ 4 ∷ []) live refl refl
      (omega arith) (omega arith) (omega arith)

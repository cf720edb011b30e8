-- ===== src/SrtStream.antt =====
-- plugins/outputs/srt-stream.c: a byte stream of MPEG-TS packets is cut into datagrams.
pub mod Datagrams
pub mod Cuts
mod Tests
use mgw.Prelude.{
  ℕ, zero, suc, ◌+◌, ◌-◌, ◌%◌, ◌^◌, Bool, true, false, ◌&&◌, ◌||◌, not, Option, none, some, List,
  [], ◌∷◌, ◌++◌, length, take, drop, ltb, leb, ◌==◌, if◌then◌else◌,
}
use mgw.Prelude.Int.{ℤ, pos, negsuc}

-- `struct srt_stream`, the fields that sending uses: `running` says that the stream is active and not
-- stopping, `left_data` holds `left_size` bytes, and `written` what `mgw_libsrt_write` was given.
pub record SrtStream : Type 0 where
  pub running : Bool
  pub disconnected : Bool
  pub send_error_cnt : ℕ
  pub total_sent_bytes : ℕ
  pub left_data : List ℕ
  pub written : List (List ℕ)

abbrev pub srt_error_threshold : ℕ
srt_error_threshold = 100

abbrev pub srt_max_packet_size : ℕ
srt_max_packet_size = 564000

abbrev pub mpegts_fix_size : ℕ
mpegts_fix_size = 188

-- The answers of `mgw_libsrt_write` that end the stream; `negsuc n` is -1 - n.
abbrev pub is_fatal : ℤ → Bool
is_fatal (pos n) = false
is_fatal (negsuc n) =
    (n == 5008) || ((n == 2000) || ((n == 5003) || ((n == 16) || (leb 89 n && leb n 112))))

abbrev pub is_negative : ℤ → Bool
is_negative (pos n) = false
is_negative (negsuc n) = true

-- `srt_write` is what the n-th call of `mgw_libsrt_write` answers.
module _ (srt_write : ℕ → ℤ) (payload_size : ℕ) where
  -- A call of `mgw_libsrt_write` and what is counted behind it.
  pub write_data : List ℕ → SrtStream → ℤ × SrtStream
  write_data send_data s =
      let ret = srt_write (length s.written) in
      let given : SrtStream = record s { written = s.written ++ send_data ∷ [] } in
      let refused : SrtStream = record given { send_error_cnt = (s.send_error_cnt + 1) % 2 ^ 8 } in
      let counted : SrtStream = record given {
        total_sent_bytes = s.total_sent_bytes + payload_size;
      } in
      (ret, if is_fatal ret then given else if is_negative ret then refused else counted)

  -- The loop that sends whole payloads, with at most so many rounds: some is a jump to `error`, and the bytes are
  -- those that are left.
  pub send_payloads : ℕ → List ℕ → SrtStream → Option ℤ × (List ℕ × SrtStream)
  unfolding write_data
  send_payloads zero send_data s = (none, (send_data, s))
  send_payloads (suc rounds) send_data s =
      let (ret, s1) = write_data (take payload_size send_data) s in
      let rest = send_payloads rounds (drop payload_size send_data) s1 in
      if ltb payload_size (length send_data)
      then if is_fatal ret then (some ret, (send_data, s1)) else rest
      else (none, (send_data, s))

  -- What follows the loop: the whole packets are sent and the others kept.
  pub send_packets : List ℕ → SrtStream → Option ℤ × SrtStream
  unfolding write_data
  send_packets send_data s =
      let ts_left = length send_data % mpegts_fix_size in
      let full_ts_sizes = length send_data - ts_left in
      let keep : List ℕ = drop full_ts_sizes send_data in
      let (ret, s1) = write_data (take full_ts_sizes send_data) s in
      if full_ts_sizes == 0
      then (none, record s { left_data = keep })
      else if is_fatal ret
      then (some ret, s1)
      else (none, record s1 { left_data = keep })

  -- What `srt_stream_proc_packet` does with the data to send, for `buf_size` new bytes.
  pub send_all : List ℕ → ℕ → SrtStream → ℤ × SrtStream
  unfolding send_payloads send_packets
  send_all send_data buf_size s =
      let (failed, (left, s1)) = send_payloads (length send_data) send_data s in
      let (failed', s2) = send_packets left s1 in
      elim failed [
        | some ret ↦ (ret, record s1 { disconnected = true })
        | none ↦ elim failed' [
          | some ret ↦ (ret, record s2 { disconnected = true })
          | none ↦ (pos buf_size, s2)
        ]
      ]

  -- `srt_stream_proc_packet` of a stream.
  pub srt_stream_proc_packet : List ℕ → SrtStream → ℤ × SrtStream
  unfolding send_all
  srt_stream_proc_packet buf s =
      let joined = s.left_data ++ take (srt_max_packet_size - length s.left_data) buf in
      let send_data : List ℕ = if length s.left_data == 0 then buf else joined in
      if not s.running || s.disconnected
      then (negsuc 0, s)
      else if ltb srt_error_threshold s.send_error_cnt
      then (pos 0, record s { send_error_cnt = 0; disconnected = true })
      else send_all send_data (length buf) (record s { left_data = [] })

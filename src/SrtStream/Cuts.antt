-- ===== src/SrtStream/Cuts.antt =====
-- No byte is lost or moved by the cutting.
use mgw.Prelude.{
  ℕ, zero, suc, ◌+◌, ◌-◌, ◌%◌, ◌≤◌, ◌<◌, ◌≡◌, ◌∙◌, refl, sym, subst, ap, true, false, Option, none,
  List, [], ◌∷◌, ◌++◌, length, take, drop, ltb, ◌==◌, if◌then◌else◌, append-nil, append_assoc,
  take-append-drop, length-take, length-drop, Bool-cases, inl, inr, arith,
}
use mgw.Prelude.Int.{ℤ, pos}
use mgw.SrtStream.{
  SrtStream, is_fatal, is_negative, write_data, send_payloads, send_packets, send_all,
  srt_stream_proc_packet, srt_error_threshold, srt_max_packet_size, mpegts_fix_size,
}
use mgw.SrtStream.Datagrams.{bytes_of, AllFit, AllFit-append, bytes_of-append, take_all}

-- Sending some bytes wrote datagrams of them, and left the rest.
abbrev Sent : ℕ → SrtStream → List ℕ → SrtStream → List ℕ → Type 0
Sent payload_size s send_data s' left =
    (ds : List (List ℕ)) × (s'.written ≡ s.written ++ ds)
    × (bytes_of ds ++ left ≡ send_data)
    × AllFit payload_size ds

-- The answer `size`, for a stream that sent the bytes up to fewer than a packet.
abbrev pub Cut : ℕ → SrtStream → List ℕ → ℕ → ℤ × SrtStream → Type 0
Cut payload_size s send_data size r =
    (r.0 ≡ pos size)
    × (length r.1.left_data < mpegts_fix_size)
    × Sent payload_size s send_data r.1 r.1.left_data

module _ (srt_write : ℕ → ℤ) (payload_size : ℕ)
    (mild : (n : ℕ) → is_fatal (srt_write n) ≡ false) where
  write_data-written :
      (d : List ℕ) (s : SrtStream)
      → (write_data srt_write payload_size d s).1.written ≡ s.written ++ d ∷ []
  unfolding write_data
  write_data-written d s =
      let ret = srt_write (length s.written) in
      rw (mild (length s.written))
        (elim (Bool-cases (is_negative ret)) [ inl e ↦ rw e refl | inr e ↦ rw e refl ])

  write_data-mild :
      (d : List ℕ) (s : SrtStream) → is_fatal (write_data srt_write payload_size d s).0 ≡ false
  unfolding write_data
  write_data-mild d s = mild (length s.written)

  -- What a round, and the end, that write a datagram come to.
  send_payloads_on :
      (rounds : ℕ) (send_data : List ℕ) (s : SrtStream)
      → ltb payload_size (length send_data) ≡ true
      → send_payloads srt_write payload_size (suc rounds) send_data s
        ≡ send_payloads srt_write payload_size rounds
            (drop payload_size send_data)
            (write_data srt_write payload_size (take payload_size send_data) s).1
  unfolding send_payloads
  send_payloads_on rounds send_data s e =
      rw (e, write_data-mild (take payload_size send_data) s) refl

  send_packets_on :
      (send_data : List ℕ) (s : SrtStream)
      → (length send_data - length send_data % mpegts_fix_size == 0) ≡ false
      → send_packets srt_write payload_size send_data s ≡ (
        none,
        record (write_data srt_write payload_size
            (take (length send_data - length send_data % mpegts_fix_size) send_data)
            s).1 {
              left_data = drop (length send_data - length send_data % mpegts_fix_size) send_data;
            },
      )
  unfolding send_packets
  send_packets_on send_data s e =
      rw
        (
          e,
          write_data-mild (take (length send_data - length send_data % mpegts_fix_size) send_data)
              s,
        )
        refl

  send_payloads-Sent :
      (rounds : ℕ) (send_data : List ℕ) (s : SrtStream)
      → 0 < payload_size
      → length send_data ≤ rounds
      → (λ (r : Option ℤ × (List ℕ × SrtStream)).
            (r.0 ≡ none)
            × (length r.1.0 ≤ payload_size)
            × Sent payload_size s send_data r.1.1 r.1.0)
          (send_payloads srt_write payload_size rounds send_data s)
  unfolding send_payloads bytes_of AllFit
  send_payloads-Sent zero send_data s h l =
      (refl, omega (arith, l), ([], sym (append-nil s.written), refl, tt))
  send_payloads-Sent (suc rounds) send_data s h l =
      elim (Bool-cases (ltb payload_size (length send_data))) [
        | inr e ↦ rw e (refl, ground (arith, e), ([], sym (append-nil s.written), refl, tt))
        | inl e ↦
            let d = take payload_size send_data in
            let s1 : SrtStream = (write_data srt_write payload_size d s).1 in
            let long : payload_size < length send_data = ground (arith, e) in
            let (ok, short, (ds, written, same, fit)) =
              send_payloads-Sent rounds (drop payload_size send_data) s1 h
                (omega (arith, length-drop payload_size send_data, l, h, long)) in
            subst
              (λ (r : Option ℤ × (List ℕ × SrtStream)).
                (r.0 ≡ none)
                × (length r.1.0 ≤ payload_size)
                × Sent payload_size s send_data r.1.1 r.1.0)
              (sym (send_payloads_on rounds send_data s e))
              (
                ok,
                short,
                (
                  d ∷ ds,
                  written
                      ∙ ap (λ x. x ++ ds) (write_data-written d s)
                      ∙ append_assoc s.written (d ∷ []) ds,
                  append_assoc d (bytes_of ds) _
                      ∙ ap (λ x. d ++ x) same
                      ∙ take-append-drop payload_size send_data,
                  (omega (arith, length-take payload_size send_data), fit),
                ),
              )
      ]

  send_packets-Sent :
      (send_data : List ℕ) (s : SrtStream)
      → length send_data ≤ payload_size
      → (λ (r : Option ℤ × SrtStream).
            (r.0 ≡ none)
            × (length r.1.left_data < mpegts_fix_size)
            × Sent payload_size s send_data r.1 r.1.left_data)
          (send_packets srt_write payload_size send_data s)
  unfolding send_packets bytes_of AllFit
  send_packets-Sent send_data s l =
      let full = length send_data - length send_data % mpegts_fix_size in
      let d = take full send_data in
      let kept : length (drop full send_data) < mpegts_fix_size =
        omega (arith, length-drop full send_data) in
      elim (Bool-cases (full == 0)) [
        | inl e ↦
            let none_sent : full ≡ 0 = ground (arith, e) in
            rw e (
              refl,
              kept,
              ([], sym (append-nil s.written), ap (λ n. drop n send_data) none_sent, tt),
            )
        | inr e ↦
            subst
              (λ (r : Option ℤ × SrtStream).
                (r.0 ≡ none)
                × (length r.1.left_data < mpegts_fix_size)
                × Sent payload_size s send_data r.1 r.1.left_data)
              (sym (send_packets_on send_data s e))
              (
                refl,
                kept,
                (
                  d ∷ [],
                  write_data-written d s,
                  ap (λ x. x ++ drop full send_data) (append-nil d)
                      ∙ take-append-drop full send_data,
                  (omega (arith, length-take full send_data, l), tt),
                ),
              )
      ]

  -- The bytes that a call sends: what was left, and all of the new ones while they fit.
  joined :
      (left buf : List ℕ)
      → length left + length buf ≤ srt_max_packet_size
      → (if length left == 0 then buf else left ++ take (srt_max_packet_size - length left) buf)
        ≡ left ++ buf
  joined [] buf l = refl
  joined (x ∷ left) buf l =
      let some_left : (length (x ∷ left) == 0) ≡ false = ground arith in
      rw some_left (
        ap (λ b. (x ∷ left) ++ b)
          (take_all (srt_max_packet_size - length (x ∷ left)) buf (omega (arith, l))))

  send_all-Cut :
      (send_data : List ℕ) (buf_size : ℕ) (s : SrtStream)
      → 0 < payload_size
      → Cut payload_size s send_data buf_size (send_all srt_write payload_size send_data buf_size s)
  unfolding send_all bytes_of AllFit
  send_all-Cut send_data buf_size s h =
      let (ok, short, (ds, written, same, fit)) =
        send_payloads-Sent (length send_data) send_data s h (omega arith) in
      let r = send_payloads srt_write payload_size (length send_data) send_data s in
      let (ok', kept, (es, written', same', fit')) = send_packets-Sent r.1.0 r.1.1 short in
      let rest : List ℕ = (send_packets srt_write payload_size r.1.0 r.1.1).1.left_data in
      let all : send_all srt_write payload_size send_data buf_size s
          ≡ (pos buf_size, (send_packets srt_write payload_size r.1.0 r.1.1).1) =
        rw (ok, ok', send_all) refl in
      subst (Cut payload_size s send_data buf_size) (sym all) (
        refl,
        kept,
        (
          ds ++ es,
          written' ∙ ap (λ x. x ++ es) written ∙ append_assoc s.written ds es,
          ap (λ x. x ++ rest) (bytes_of-append ds es)
              ∙ append_assoc (bytes_of ds) (bytes_of es) rest
              ∙ ap (λ x. bytes_of ds ++ x) same'
              ∙ same,
          AllFit-append payload_size ds es fit fit',
        ),
      )

  -- A stream that runs and is connected, with few errors, gets MPEG-TS data that fit behind what it kept, and no write ends it:
  -- `srt_stream_proc_packet` answers the size of the data and writes, in datagrams of at most a payload, what it had kept and then
  -- the data, byte for byte in order, up to fewer than 188 bytes that it keeps. Condition: the payload is not empty.
  pub srt_stream_proc_packet-Cut :
      (buf : List ℕ) (s : SrtStream)
      → s.running ≡ true
      → s.disconnected ≡ false
      → s.send_error_cnt ≤ srt_error_threshold
      → 0 < payload_size
      → length s.left_data + length buf ≤ srt_max_packet_size
      → Cut payload_size s
          (s.left_data ++ buf)
          (length buf)
          (srt_stream_proc_packet srt_write payload_size buf s)
  unfolding srt_stream_proc_packet
  srt_stream_proc_packet-Cut buf s run conn few h l =
      let count : ltb srt_error_threshold s.send_error_cnt ≡ false = ground (arith, few) in
      let same : srt_stream_proc_packet srt_write payload_size buf s
          ≡ send_all srt_write payload_size (s.left_data ++ buf) (length buf)
              (record s { left_data = [] }) =
        simp (joined s.left_data buf l, run, conn, count) refl in
      subst (Cut payload_size s (s.left_data ++ buf) (length buf)) (sym same)
        (send_all-Cut (s.left_data ++ buf) (length buf) (record s { left_data = [] }) h)

-- ===== src/RtmpStream/Times.antt =====
-- The times of the tags that a stream sends after it has begun.
use mgw.Prelude.{
  ℕ, ◌+◌, ◌-◌, ◌/◌, ◌^◌, ◌≤◌, ◌<◌, ◌≡◌, ◌≢◌, refl, sym, subst, Bool, true, false, List, sub64, ◌==◌,
  not, ◌&&◌, ◌||◌, if◌then◌else◌, Bool-cases, inl, inr, arith,
}
use mgw.Codec.Startcode.{Bytes}
use mgw.Flv.{EncoderType, encoder_audio, encoder_video}
use mgw.RtmpStream.Goes.{good_if, send_key_frame-Goes, send_packet-Goes, send_headers-Goes}
use mgw.RtmpStream.{
  SendPacket, RtmpStream, SourceInfo, write_tag, send_packet_internal, send_packet, send_key_frame,
  send_headers, send_one, send_round, frame_priority_low,
}

-- The stream has sent its headers and begun, and nothing that it wrote is later than a packet of the
-- time `pts`.
pub record OnTime (pts : ℕ) (s : RtmpStream) : Type 0 where
  pub headers : s.sent_headers ≡ true
  pub begun : s.start_dts_offset ≢ 0
  pub after : s.start_dts_offset ≤ pts / 1000
  pub last : s.last_dts ≤ pts / 1000 - s.start_dts_offset
  pub word : pts < 2 ^ 63

-- A call keeps that, and sets no earlier time.
abbrev Later : ℕ → RtmpStream → RtmpStream → Type 0
Later pts s s' = OnTime pts s → OnTime pts s' × (s.last_dts ≤ s'.last_dts)

Later-self : (pts : ℕ) (s : RtmpStream) → Later pts s s
Later-self pts s t = (t, omega arith)

Later-then : (pts : ℕ) (s t u : RtmpStream) → Later pts s t → Later pts t u → Later pts s u
Later-then pts s t u a b h =
    let (on_time, le) = a h in let (on_time', le') = b on_time in (on_time', omega (arith, le, le'))

module _ (rtmp_write : List ℕ → Bool) (drained : Bool) where
  write_tag-Later :
      (pts : ℕ) (payload : List ℕ) (kind : EncoderType) (keyframe is_header : Bool) (s : RtmpStream)
      → Later pts s (write_tag rtmp_write drained payload kind keyframe is_header (pts / 1000) s).1
  unfolding write_tag
  write_tag-Later pts payload kind keyframe is_header s t =
      let time : sub64 (pts / 1000) s.start_dts_offset ≡ pts / 1000 - s.start_dts_offset =
        omega (arith, t.after, t.word) in
      elim (Bool-cases drained) [
        | inl e ↦
            rw (e, time)
              (
                record {
                  headers = t.headers;
                  begun = t.begun;
                  after = t.after;
                  last = omega arith;
                  word = t.word;
                },
                t.last,
              )
        | inr e ↦ rw e (t, omega arith)
      ]

  send_packet_internal-Later :
      (pts : ℕ) (payload : List ℕ) (kind : EncoderType) (keyframe is_header : Bool) (s : RtmpStream)
      → Later pts s
          (send_packet_internal rtmp_write drained payload kind keyframe is_header pts s).1
  unfolding send_packet_internal
  send_packet_internal-Later pts payload kind keyframe is_header s t =
      let begun : (s.start_dts_offset == 0) ≡ false = ground (arith, t.begun) in
      rw begun (write_tag-Later pts payload kind keyframe is_header s t)

-- The end of a round.
round-Later :
    (pts : ℕ) (s s1 : RtmpStream) (ready : Bool) (r : Bool × RtmpStream)
    → Later pts s s1
    → Later pts s1 r.1
    → (λ (x : Bool × RtmpStream). Later pts s x.1)
        (if not ready
          then (false, s1)
          else if r.0
          then (true, record r.1 { sent_frames = r.1.sent_frames + 1 })
          else (false, r.1))
round-Later pts s s1 false r a b t = a t
round-Later pts s s1 true (false, s2) a b t = Later-then pts s s1 s2 a b t
round-Later pts s s1 true (true, s2) a b t =
    let (on_time, le) = Later-then pts s s1 s2 a b t in
    (
      record {
        headers = on_time.headers;
        begun = on_time.begun;
        after = on_time.after;
        last = on_time.last;
        word = on_time.word;
      },
      le,
    )

-- A later packet.
OnTime-le :
    (pts later : ℕ) (s : RtmpStream) → OnTime pts s → pts ≤ later → later < 2 ^ 63 → OnTime later s
OnTime-le pts later s t le word = record {
  headers = t.headers;
  begun = t.begun;
  after = omega (arith, t.after);
  last = omega (arith, t.last);
  word = word;
}

module _ (rtmp_write : List ℕ → Bool) (drained : Bool) where
  headers-Later :
      (info : SourceInfo) (p : SendPacket) (switched : Bool) (s : RtmpStream)
      → (λ (x : Bool × RtmpStream). Later p.pts s x.1)
          (if not s.sent_headers || switched
            then send_headers rtmp_write drained info (if s.sent_headers then p.pts else 0) s
            else (true, s))
  headers-Later info p switched s t =
      let s' : RtmpStream = record s { sent_headers = true } in
      let t' : OnTime p.pts s' = record {
        headers = refl;
        begun = t.begun;
        after = t.after;
        last = t.last;
        word = t.word;
      } in
      let sent =
        send_headers-Goes rtmp_write drained p.pts (Later p.pts) (Later-self p.pts)
          (Later-then p.pts) (send_packet_internal-Later rtmp_write drained p.pts) info s in
      let ts : (if s.sent_headers then p.pts else 0) ≡ p.pts = ground (arith, t.headers) in
      let headers : Bool × RtmpStream = send_headers rtmp_write drained info p.pts s in
      rw ts (
        good_if (λ u. OnTime p.pts u × (s.last_dts ≤ u.last_dts)) (not s.sent_headers || switched)
          headers (true, s) (sent t') (t, omega arith))

  -- The body of the loop for a packet that is not before the last one, in a stream that has begun and whose tags are not
  -- later than that last packet: whichever way it ends, this is so for the new packet, and the time of the last tag has not gone back.
  send_one-Later :
      (info : SourceInfo) (m : Bytes) (p : SendPacket) (s : RtmpStream)
      → Later p.pts s (send_one rtmp_write drained info m p s).1
  unfolding send_one
  send_one-Later info m p s =
      let is_video : Bool = elim p.kind [ encoder_video ↦ true | encoder_audio ↦ false ] in
      let switched = (p.priority == frame_priority_low) && (p.keyframe && is_video) in
      let ts = if s.sent_headers then p.pts else 0 in
      let first =
        if not s.sent_headers || switched
        then send_headers rtmp_write drained info ts s
        else (true, s) in
      let key = send_key_frame rtmp_write drained m p first.1 in
      let other = send_packet rtmp_write drained m p first.1 in
      let go = send_packet_internal-Later rtmp_write drained p.pts in
      round-Later p.pts s first.1 first.0 (if p.keyframe && is_video then key else other)
        (headers-Later info p switched s)
        (good_if (Later p.pts first.1) (p.keyframe && is_video) key other
          (send_key_frame-Goes rtmp_write drained p.pts (Later p.pts) (Later-self p.pts)
            (Later-then p.pts) go m p first.1 refl)
          (send_packet-Goes rtmp_write drained p.pts (Later p.pts) (Later-self p.pts)
            (Later-then p.pts) go m p first.1 refl))

  -- A round that goes on is the body of the loop.
  send_round-on :
      (stops : Bool) (info : SourceInfo) (m : Bytes) (p : SendPacket) (s : RtmpStream)
      → (send_round rtmp_write drained stops info m p s).0 ≡ true
      → (send_round rtmp_write drained stops info m p s).1
        ≡ (send_one rtmp_write drained info m p s).1
  unfolding send_round
  send_round-on stops info m p s going =
      elim (Bool-cases (send_one rtmp_write drained info m p s).0) [
        | inl e ↦ rw e refl
        | inr e ↦ absurd (ground (arith, rw e at going))
      ]

-- Rounds of one `send_thread`, from a packet of the time `pts` on: each round but the last one goes on to the next, and each packet is not before
-- the one in front of it. What RTMP_Write, the socket and the source answer may differ from round to round.
pub data Rounds (pts : ℕ) (s : RtmpStream) : ℕ → RtmpStream → Type 0 where
  begin : Rounds pts s pts s
  round :
      {now : ℕ} {t : RtmpStream}
      → Rounds pts s now t
      → (rtmp_write : List ℕ → Bool) (drained stops : Bool) (info : SourceInfo) (m : Bytes)
        (p : SendPacket)
      → now ≤ p.pts
      → p.pts < 2 ^ 63
      → (send_round rtmp_write drained stops info m p t).0 ≡ true
      → Rounds pts s p.pts (send_round rtmp_write drained stops info m p t).1

Rounds-Later :
    {pts : ℕ} {s : RtmpStream} {now : ℕ} {t : RtmpStream}
    → OnTime pts s
    → Rounds pts s now t
    → OnTime now t × (s.last_dts ≤ t.last_dts)
Rounds-Later on_time begin = (on_time, omega arith)
Rounds-Later {s = s} on_time (round {t = t} r rtmp_write drained stops info m p le word going) =
    let (before, last) = Rounds-Later on_time r in
    let (after, later) =
      send_one-Later rtmp_write drained info m p t (OnTime-le _ p.pts t before le word) in
    subst (λ (u : RtmpStream). OnTime p.pts u × (s.last_dts ≤ u.last_dts))
      (sym (send_round-on rtmp_write drained stops info m p t going))
      (after, omega (arith, last, later))

-- A stream has sent its headers and begun, and its last tag is not later than a packet. After any number of rounds of the sending thread
-- with packets in the order of their times, each of which went on, whatever the source answered and what was written, the stream has
-- still begun at the same condition for the last packet, and the time of the last tag has not gone back. The body of the next
-- round does not set it back either, also where it then disconnects; the end of the thread, which clears the times, comes after it.
pub Rounds-OnTime :
    {pts : ℕ} {s : RtmpStream} {now : ℕ} {t : RtmpStream}
    → OnTime pts s
    → Rounds pts s now t
    → OnTime now t
      × (s.last_dts ≤ t.last_dts)
      × ((rtmp_write : List ℕ → Bool) (drained : Bool) (info : SourceInfo) (m : Bytes)
            (p : SendPacket)
          → now ≤ p.pts
          → p.pts < 2 ^ 63
          → t.last_dts ≤ (send_one rtmp_write drained info m p t).1.last_dts)
Rounds-OnTime {t = t} on_time r =
    let (now_on_time, last) = Rounds-Later on_time r in
    (
      now_on_time,
      last,
      λ rtmp_write drained info m p le word.
          (send_one-Later rtmp_write drained info m p t
            (OnTime-le _ p.pts t now_on_time le word)).1,
    )

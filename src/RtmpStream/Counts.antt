-- ===== src/RtmpStream/Counts.antt =====
-- What a round of the sending thread counts.
use mgw.Prelude.{
  ℕ, ◌+◌, ◌/◌, ◌≡◌, ◌∙◌, refl, Bool, true, false, List, [], ◌∷◌, ◌++◌, length, ◌==◌, not, ◌&&◌,
  ◌||◌, if◌then◌else◌, Bool-cases, inl, inr, arith,
}
use mgw.Codec.Startcode.{Bytes}
use mgw.Flv.{EncoderType, encoder_audio, encoder_video}
use mgw.RtmpStream.Goes.{
  good_if, good_kind, send_key_frame-Goes, send_packet-Goes, send_headers-Goes,
}
use mgw.RtmpStream.{
  SendPacket, RtmpStream, SourceInfo, write_tag, send_packet_internal, send_packet, send_key_frame,
  send_headers, send_one, leave_thread, send_round, frame_priority_low,
}

unfoldable pub total_length : List (List ℕ) → ℕ
total_length [] = 0
total_length (tag ∷ tags) = length tag + total_length tags

total_length-append :
    (xs ys : List (List ℕ)) → total_length (xs ++ ys) ≡ total_length xs + total_length ys
unfolding total_length
total_length-append [] ys = omega arith
total_length-append (x ∷ xs) ys = omega (arith, total_length-append xs ys)

-- The bytes that the stream has counted are those of the tags written.
unfoldable pub IsCounted : RtmpStream → Type 0
IsCounted s = s.total_bytes_sent ≡ total_length s.written

-- A call keeps that, and the two fields that only a round sets.
record Keeps (s s' : RtmpStream) : Type 0 where
  counted : IsCounted s → IsCounted s'
  headers : s'.sent_headers ≡ s.sent_headers
  frames : s'.sent_frames ≡ s.sent_frames

Keeps-self : (s : RtmpStream) → Keeps s s
Keeps-self s = record { counted = λ h. h; headers = refl; frames = refl }

Keeps-then : (s t u : RtmpStream) → Keeps s t → Keeps t u → Keeps s u
Keeps-then s t u a b = record {
  counted = λ h. b.counted (a.counted h);
  headers = b.headers ∙ a.headers;
  frames = b.frames ∙ a.frames;
}

-- What the body of the loop does to the counts of the stream that it begins with.
abbrev Counted : RtmpStream → Bool × RtmpStream → Type 0
Counted s (going, s') =
    IsCounted s'
    × (s'.sent_headers ≡ true)
    × (s'.sent_frames ≡ s.sent_frames + (if going then 1 else 0))

-- What a round does to them, which goes on or ends the thread.
abbrev pub Counts : RtmpStream → Bool × RtmpStream → Type 0
Counts s (going, s') =
    IsCounted s'
    × (s'.sent_headers ≡ going)
    × (s'.sent_frames ≡ s.sent_frames + (if going then 1 else 0))

-- The end of a round, from whether the headers were sent and what sending the packet answered.
round-Counted :
    (s s1 : RtmpStream) (ready : Bool) (r : Bool × RtmpStream)
    → IsCounted s1 × (s1.sent_headers ≡ true) × (s1.sent_frames ≡ s.sent_frames)
    → Keeps s1 r.1
    → Counted s (
        if not ready
        then (false, s1)
        else if r.0
        then (true, record r.1 { sent_frames = r.1.sent_frames + 1 })
        else (false, r.1))
unfolding IsCounted
round-Counted s s1 false r (counted, headers, frames) k = (counted, headers, omega (arith, frames))
round-Counted s s1 true (true, s2) (counted, headers, frames) k =
    (k.counted counted, k.headers ∙ headers, omega (arith, frames, k.frames))
round-Counted s s1 true (false, s2) (counted, headers, frames) k =
    (k.counted counted, k.headers ∙ headers, omega (arith, frames, k.frames))

module _ (rtmp_write : List ℕ → Bool) (drained : Bool) where
  write_tag-Keeps :
      (payload : List ℕ) (kind : EncoderType) (keyframe is_header : Bool) (tick : ℕ)
      (s : RtmpStream)
      → Keeps s (write_tag rtmp_write drained payload kind keyframe is_header tick s).1
  unfolding write_tag IsCounted total_length
  write_tag-Keeps payload kind keyframe is_header tick s = elim (Bool-cases drained) [
    | inl e ↦ rw e (record {
      counted = λ h. omega (arith, h, total_length-append s.written (_ ∷ []));
      headers = refl;
      frames = refl;
    })
    | inr e ↦ rw e (Keeps-self s)
  ]

  send_packet_internal-Keeps :
      (pts : ℕ) (payload : List ℕ) (kind : EncoderType) (keyframe is_header : Bool) (s : RtmpStream)
      → Keeps s (send_packet_internal rtmp_write drained payload kind keyframe is_header pts s).1
  unfolding send_packet_internal IsCounted
  send_packet_internal-Keeps pts payload kind keyframe is_header s =
      let tick = pts / 1000 in
      let s' : RtmpStream = record s { start_dts_offset = tick } in
      let begun : Keeps s s' = record { counted = λ h. h; headers = refl; frames = refl } in
      good_if (Keeps s) ((s.start_dts_offset == 0) && not is_header) _ _
        (good_kind (Keeps s) kind _ _ (Keeps-self s)
          (Keeps-then s s' _ begun (write_tag-Keeps payload kind keyframe is_header tick s')))
        (write_tag-Keeps payload kind keyframe is_header tick s)

  -- The headers, or none when they have been sent.
  ready_counts :
      (info : SourceInfo) (ts : ℕ) (switched : Bool) (s : RtmpStream)
      → IsCounted s
      → (λ (r : Bool × RtmpStream).
            IsCounted r.1 × (r.1.sent_headers ≡ true) × (r.1.sent_frames ≡ s.sent_frames))
          (if not s.sent_headers || switched
            then send_headers rtmp_write drained info ts s
            else (true, s))
  unfolding IsCounted
  ready_counts info ts switched s h =
      let k =
        send_headers-Goes rtmp_write drained ts Keeps Keeps-self Keeps-then
          (send_packet_internal-Keeps ts) info s in
      elim (Bool-cases (not s.sent_headers || switched)) [
        | inl e ↦ rw e (k.counted h, k.headers, k.frames)
        | inr e ↦ rw e (h, ground (arith, e), refl)
      ]

  -- The body of the loop.
  send_one-Counted :
      (info : SourceInfo) (m : Bytes) (p : SendPacket) (s : RtmpStream)
      → IsCounted s
      → Counted s (send_one rtmp_write drained info m p s)
  unfolding send_one
  send_one-Counted info m p s h =
      let is_video : Bool = elim p.kind [ encoder_video ↦ true | encoder_audio ↦ false ] in
      let switched = (p.priority == frame_priority_low) && (p.keyframe && is_video) in
      let ts = if s.sent_headers then p.pts else 0 in
      let first =
        if not s.sent_headers || switched
        then send_headers rtmp_write drained info ts s
        else (true, s) in
      let key = send_key_frame rtmp_write drained m p first.1 in
      let other = send_packet rtmp_write drained m p first.1 in
      let go = send_packet_internal-Keeps p.pts in
      round-Counted s first.1 first.0 (if p.keyframe && is_video then key else other)
        (ready_counts info ts switched s h)
        (good_if (Keeps first.1) (p.keyframe && is_video) key other
          (send_key_frame-Goes rtmp_write drained p.pts Keeps Keeps-self Keeps-then go m p first.1
            refl)
          (send_packet-Goes rtmp_write drained p.pts Keeps Keeps-self Keeps-then go m p first.1
            refl))

  -- After any round of the sending thread the bytes counted are those of the tags written, if they were before it. If
  -- the thread goes on, the headers count as sent and one more frame is counted; if the round disconnects and ends
  -- the thread, the headers count as not sent and the frames are as many as before.
  pub send_round-Counts :
      (stops : Bool) (info : SourceInfo) (m : Bytes) (p : SendPacket) (s : RtmpStream)
      → IsCounted s
      → Counts s (send_round rtmp_write drained stops info m p s)
  unfolding send_round leave_thread IsCounted
  send_round-Counts stops info m p s h =
      let (counted, headers, frames) = send_one-Counted info m p s h in
      elim (Bool-cases (send_one rtmp_write drained info m p s).0) [
        | inl e ↦ rw e (counted, headers, rw e at frames)
        | inr e ↦ elim (Bool-cases stops) [
          | inl g ↦ rw (e, g) (counted, refl, rw e at frames)
          | inr g ↦ rw (e, g) (counted, refl, rw e at frames)
        ]
      ]

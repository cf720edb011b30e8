-- ===== src/RtmpStream/Back.antt =====
-- Headers sent once more before the stream has begun.
use mgw.Prelude.{ℕ, ◌≡◌, Bool, true}
use mgw.RtmpStream.{RtmpStream}

-- The call went well, at the time, with the start at `start`.
record Stamped (time start : ℕ) (r : Bool × RtmpStream) : Type 0 where
  sent : r.0 ≡ true
  last : r.1.last_dts ≡ time
  at : r.1.start_dts_offset ≡ start

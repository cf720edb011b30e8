-- ===== src/Codec/Nals/Samples.antt =====
-- A stream of an SPS, a PPS and a slice of a key frame, from the address 100 up to 118.
use mgw.Prelude.{ℕ, ◌<◌, refl, List, [], ◌∷◌, ◌==◌, ltb, if◌then◌else◌, inl, inr, arith}
use mgw.Codec.Startcode.{Bytes}
use mgw.Codec.Nals.Stream.{Stream}

abbrev pub stream : Bytes
stream q =
    if ltb q 103
    then 0
    else if q == 103
    then 1
    else if ltb q 108
    then 103
    else if ltb q 110
    then 0
    else if q == 110
    then 1
    else if ltb q 113
    then 104
    else if ltb q 115
    then 0
    else if q == 115
    then 1
    else 101

abbrev pub units : List (ℕ × ℕ)
units = (104, 108) ∷ (111, 113) ∷ (116, 118) ∷ []

pub stream_bytes : (q : ℕ) → stream q < 256
stream_bytes q = ground arith

pub stream-Stream : Stream stream 118 100 units
stream-Stream = (
  inr (refl, refl, refl),
  omega arith,
  (λ h. omega arith),
  (λ h. omega arith),
  (λ q a b. ground arith),
  (
    inl (refl, refl),
    omega arith,
    (λ h. omega arith),
    (λ h. omega arith),
    (λ q a b. ground arith),
    (
      inl (refl, refl),
      omega arith,
      (λ h. omega arith),
      (λ h. omega arith),
      (λ q a b. ground arith),
      refl,
    ),
  ),
)

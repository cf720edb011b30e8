-- ===== src/Codec/Aac/Leave.antt =====
-- The size of the data in an ADTS frame.
use mgw.Prelude.{drop, refl, ℕ, ◌+◌, ◌^◌, ◌<◌, ◌≡◌, some, List, length, get_or, arith}
use mgw.Codec.Aac.{add_adts, leave_adts}

-- `mgw_aac_leave_adts` of the bytes that `mgw_aac_add_adts` writes returns the size of the data, for every
-- sample rate, profile and number of channels, while the size of the frame fits in a `size_t`.
pub leave_adts-add_adts :
    (samplerate profile channels dst_size : ℕ) (xs : List ℕ)
    → length xs + 7 < 2 ^ 64
    → leave_adts
        (λ i. get_or (add_adts samplerate profile channels (some xs)).1 i 0)
        (add_adts samplerate profile channels (some xs)).0
        dst_size
      ≡ length xs
unfolding add_adts leave_adts
leave_adts-add_adts samplerate profile channels dst_size xs h = ground arith

-- The parts of what `mgw_aac_add_adts` writes.
pub length-add_adts :
    (samplerate profile channels : ℕ) (xs : List ℕ)
    → length (add_adts samplerate profile channels (some xs)).1 ≡ 7 + length xs
unfolding add_adts
length-add_adts samplerate profile channels xs = ground arith

pub add_adts_second :
    (samplerate profile channels : ℕ) (xs : List ℕ)
    → get_or (add_adts samplerate profile channels (some xs)).1 1 0 ≡ 241
unfolding add_adts
add_adts_second samplerate profile channels xs = refl

pub add_adts_data :
    (samplerate profile channels : ℕ) (xs : List ℕ)
    → drop 7 (add_adts samplerate profile channels (some xs)).1 ≡ xs
unfolding add_adts
add_adts_data samplerate profile channels xs = refl

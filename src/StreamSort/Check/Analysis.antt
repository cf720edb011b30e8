-- ===== src/StreamSort/Check/Analysis.antt =====
-- The analysis of the sort time.
use mgw.Prelude.{◌+◌, ◌^◌, ◌≤◌, ◌<◌, ◌≡◌, arith}
use mgw.StreamSort.{Sorter}
use mgw.StreamSort.Check.{adjust_sort_time}

-- For a sort time below 300 ms, not shorter than the first one, that is more than 200 ms above a measured time that is
-- not 0, both steps are taken: the new sort time is 300 ms less modulo 2^32 microseconds, which is above 4294 s.
pub adjust_sort_time_underflows :
    (s : Sorter)
    → 0 < s.analy_time
    → s.analy_time + 200000 < s.sort_time
    → s.sort_time < 300000
    → s.sort_time_bak ≤ s.sort_time
    → (adjust_sort_time s + 300000 ≡ s.sort_time + 2 ^ 32) × (4294000000 < adjust_sort_time s)
unfolding adjust_sort_time
adjust_sort_time_underflows s a d h b = (ground (arith, b), ground (arith, b))

-- For a sort time that is a word, at most 200 ms above the measured time and no less than it was at first, the new sort time
-- is no longer than the old one and no shorter than the first one.
adjust_sort_time-le :
    (s : Sorter)
    → s.sort_time < 2 ^ 32
    → s.sort_time_bak ≤ s.sort_time
    → s.sort_time ≤ s.analy_time + 200000
    → (adjust_sort_time s ≤ s.sort_time) × (s.sort_time_bak ≤ adjust_sort_time s)
unfolding adjust_sort_time
adjust_sort_time-le s w b h = (ground arith, ground arith)

-- ===== src/Output/Reach.antt =====
-- The outputs that any sequence of calls and wake-ups leads to.
use mgw.Prelude.{
  ℕ, ◌+◌, ◌≤◌, ◌≡◌, refl, inl, inr, Bool, true, false, if◌then◌else◌, Bool-cases, arith,
}
use mgw.Prelude.Int.{ℤ}
use mgw.Output.{
  Output, actual_start, actual_stop, reconnect_thread, output_reconnect, can_reconnect,
  output_signal_stop,
}

-- A start, a stop, a thread that wakes, or a plugin that reports its end.
pub data Step : Output → Output → Type 0 where
  starts : (started : Bool) (s : Output) → Step s (actual_start started s)
  stops : (force : Bool) (s : Output) → Step s (actual_stop force s)
  wakes : (timed_out started : Bool) (s : Output) → Step s (reconnect_thread timed_out started s)

-- Sequences of them and of reports, with the number of threads begun to connect again in a row: a report in an output that is
-- not reconnecting begins a new row.
pub data Reach (s : Output) : ℕ → Output → Type 0 where
  here : Reach s 0 s
  onward : {n : ℕ} {t u : Output} → Reach s n t → Step t u → Reach s n u
  reports :
      {n : ℕ} {t : Output}
      → Reach s n t
      → (created : Bool) (code : ℤ)
      → Reach s
          ((if t.reconnecting then n else 0)
            + (if (output_signal_stop created code t).0 then 1 else 0))
          (output_signal_stop created code t).1

-- The limit and the first delay are those of `s`, no delay is above 900 seconds, and the row of `n` attempts is within
-- the limit and, while the output reconnects, within the counter.
record Bounded (s : Output) (n : ℕ) (t : Output) : Type 0 where
  limit : t.reconnect_retry_max ≡ s.reconnect_retry_max
  first : t.reconnect_retry_sec ≤ 900
  seconds : t.reconnect_retry_cur_sec ≤ 900
  row : n ≤ s.reconnect_retry_max
  counted : t.reconnecting ≡ true → n ≤ t.reconnect_retries
  retries : t.reconnecting ≡ true → t.reconnect_retries ≤ s.reconnect_retry_max

Step-Bounded : {s : Output} {n : ℕ} {t u : Output} → Step t u → Bounded s n t → Bounded s n u
unfolding actual_start actual_stop reconnect_thread
Step-Bounded (starts started t) b = record {
  limit = b.limit;
  first = b.first;
  seconds = b.seconds;
  row = b.row;
  counted = b.counted;
  retries = b.retries;
}
Step-Bounded (stops force t) b = record {
  limit = ground (arith, b.limit);
  first = ground (arith, b.first);
  seconds = ground (arith, b.seconds);
  row = b.row;
  counted = ground (arith, b.counted);
  retries = ground (arith, b.retries);
}
Step-Bounded (wakes timed_out started t) b = record {
  limit = ground (arith, b.limit);
  first = ground (arith, b.first);
  seconds = ground (arith, b.seconds);
  row = b.row;
  counted = ground (arith, b.counted);
  retries = ground (arith, b.retries);
}

reconnect-Bounded :
    (s : Output) (n : ℕ) (created : Bool) (t : Output)
    → Bounded s n t
    → Bounded s
        ((if t.reconnecting then n else 0) + (if (output_reconnect created t).0 then 1 else 0))
        (output_reconnect created t).1
unfolding output_reconnect
reconnect-Bounded s n created t b = record {
  limit = ground (arith, b.limit);
  first = ground (arith, b.first);
  seconds = ground (arith, b.seconds, b.first);
  row = ground (arith, b.limit, b.row, b.counted, b.retries);
  counted = ground (arith, b.limit, b.row, b.counted, b.retries);
  retries = ground (arith, b.limit, b.row, b.counted, b.retries);
}

report-Bounded :
    (s : Output) (n : ℕ) (created : Bool) (code : ℤ) (t : Output)
    → Bounded s n t
    → Bounded s
        ((if t.reconnecting then n else 0)
          + (if (output_signal_stop created code t).0 then 1 else 0))
        (output_signal_stop created code t).1
unfolding output_signal_stop
report-Bounded s n created code t b = elim (Bool-cases (can_reconnect t code)) [
  | inl e ↦ rw e (
      reconnect-Bounded s n created _ (record {
        limit = b.limit;
        first = b.first;
        seconds = b.seconds;
        row = b.row;
        counted = b.counted;
        retries = b.retries;
      }))
  | inr e ↦ rw e (record {
    limit = b.limit;
    first = b.first;
    seconds = b.seconds;
    row = ground (arith, b.row);
    counted = ground (arith, b.counted);
    retries = b.retries;
  })
]

Reach-Bounded : {s : Output} {n : ℕ} {t : Output} → Bounded s 0 s → Reach s n t → Bounded s n t
Reach-Bounded b here = b
Reach-Bounded b (onward r step) = Step-Bounded step (Reach-Bounded b r)
Reach-Bounded {s = s} b (reports {n} {t} r created code) =
    report-Bounded s n created code t (Reach-Bounded b r)

-- From an output that is not reconnecting, whose delays are at most 900 seconds, any sequence of starts, stops, wake-ups and reports begins at most as
-- many attempts to connect again in a row as the limit says, and no attempt waits more than 900 seconds. A row goes
-- on while the output reconnects, whatever its attempts come to; a report after that begins a new one.
pub attempts_in_a_row :
    {s : Output} {n : ℕ} {t : Output}
    → s.reconnecting ≡ false
    → s.reconnect_retry_sec ≤ 900
    → s.reconnect_retry_cur_sec ≤ 900
    → Reach s n t
    → (n ≤ s.reconnect_retry_max) × (t.reconnect_retry_cur_sec ≤ 900)
attempts_in_a_row {s = s} off first seconds r =
    let b =
      Reach-Bounded
        (record {
          limit = refl;
          first = first;
          seconds = seconds;
          row = omega arith;
          counted = λ e. omega arith;
          retries = λ e. absurd (ground (arith, off, e));
        })
        r in
    (b.row, b.seconds)

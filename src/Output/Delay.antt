-- ===== src/Output/Delay.antt =====
-- The delays of a row of reconnections, and what a success does not change.
use mgw.Prelude.{ℕ, zero, suc, ◌*◌, ◌^◌, ◌≤◌, ◌<◌, ◌≡◌, subst, min, true, false, arith}
use native.Mathlib.Numerals.{unary_clauses}
use mgw.Output.{
  Output, mgw_disconnected, actual_start, reconnect_thread, output_reconnect, output_signal_stop,
}

-- `output_reconnect` time after time, with every thread begun.
abbrev pub reconnects : ℕ → Output → Output
reconnects zero s = s
reconnects (suc n) s = (output_reconnect true (reconnects n s)).1

pub record Waits (s : Output) (retry_max n cur : ℕ) : Type 0 where
  pub on : s.reconnecting ≡ true
  pub limit : s.reconnect_retry_max ≡ retry_max
  pub retries : s.reconnect_retries ≡ n
  pub seconds : s.reconnect_retry_cur_sec ≡ cur

first-Waits :
    (s : Output)
    → s.reconnecting ≡ false
    → 0 < s.reconnect_retry_max
    → Waits (output_reconnect true s).1 s.reconnect_retry_max 1 s.reconnect_retry_sec
unfolding output_reconnect
first-Waits s off h = record {
  on = ground (arith, off);
  limit = ground (arith, off);
  retries = ground (arith, off);
  seconds = ground (arith, off);
}

next-Waits :
    (s : Output) (retry_max n cur : ℕ)
    → Waits s retry_max (suc n) cur
    → suc n < retry_max
    → Waits (output_reconnect true s).1 retry_max (suc (suc n)) (min (cur * 2) 900)
unfolding output_reconnect
next-Waits s retry_max n cur w h = record {
  on = ground (arith, w.on, w.limit, w.retries);
  limit = ground (arith, w.on, w.limit, w.retries);
  retries = ground (arith, w.on, w.limit, w.retries);
  seconds = ground (arith, w.on, w.limit, w.retries, w.seconds);
}

min_doubled : (a n : ℕ) → min (min (a * 2 ^ n) 900 * 2) 900 ≡ min (a * 2 ^ suc n) 900
min_doubled a n =
    let q : 2 ^ suc n ≡ 2 ^ n * 2 = simp unary_clauses (omega arith) in
    let p : a * 2 ^ suc n ≡ a * 2 ^ n * 2 = rw q (grind arith) in omega (arith, p)

-- From an output that is not reconnecting, with a first delay of 1 to 900 seconds, the `n`-th attempt in a row waits that delay doubled `n - 1` times, and
-- never more than 900 seconds, as long as `n` is within the limit.
pub reconnects-Waits :
    (s : Output) (n : ℕ)
    → s.reconnecting ≡ false
    → 0 < s.reconnect_retry_sec
    → s.reconnect_retry_sec ≤ 900
    → n < s.reconnect_retry_max
    → Waits
        (reconnects (suc n) s)
        s.reconnect_retry_max
        (suc n)
        (min (s.reconnect_retry_sec * 2 ^ n) 900)
reconnects-Waits s zero off a b h =
    let e : s.reconnect_retry_sec ≡ min (s.reconnect_retry_sec * 2 ^ 0) 900 = omega arith in
    subst (Waits (output_reconnect true s).1 s.reconnect_retry_max 1) e (first-Waits s off h)
reconnects-Waits s (suc n) off a b h =
    let w = reconnects-Waits s n off a b (omega arith) in
    subst
      (Waits (output_reconnect true (reconnects (suc n) s)).1 s.reconnect_retry_max (suc (suc n)))
      (min_doubled s.reconnect_retry_sec n)
      (next-Waits (reconnects (suc n) s) s.reconnect_retry_max n
        (min (s.reconnect_retry_sec * 2 ^ n) 900) w h)

-- While an output reconnects, an attempt that connects again does not renew the number of attempts: with the limit reached, the next loss of the
-- connection ends the reconnection and begins no attempt, though the output was active in between.
pub reconnect_thread_keeps :
    (s : Output)
    → s.valid ≡ true
    → s.reconnecting ≡ true
    → s.reconnect_stop ≡ false
    → 0 < s.reconnect_retry_max
    → s.reconnect_retry_max ≤ s.reconnect_retries
    → ((reconnect_thread true true s).actived ≡ true)
      × ((output_signal_stop true mgw_disconnected (reconnect_thread true true s)).0 ≡ false)
      × ((output_signal_stop true mgw_disconnected (reconnect_thread true true s)).1.reconnecting
          ≡ false)
unfolding reconnect_thread actual_start output_signal_stop output_reconnect
reconnect_thread_keeps s v r e m h =
    (ground (arith, v, r, e), ground (arith, v, r, e), ground (arith, v, r, e))

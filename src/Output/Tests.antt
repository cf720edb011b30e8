-- ===== src/Output/Tests.antt =====
-- A new output, which waits two seconds at first and attempts up to twenty reconnections.
use mgw.Prelude.{◌≤◌, suc, ◌*◌, ◌^◌, min, ◌≡◌, refl, true, false, arith}
use mgw.Prelude.Int.{pos, negsuc}
use mgw.Output.{
  actual_start, Output, mgw_disconnected, reconnect_thread, output_reconnect, output_signal_stop,
}
use mgw.Output.Delay.{reconnects, Waits, reconnects-Waits, reconnect_thread_keeps}
use mgw.Output.Reach.{wakes, Reach, here, onward, reports, attempts_in_a_row}

abbrev new_output : Output
new_output = record {
  reconnect_retry_sec = 2;
  reconnect_retry_max = 20;
  reconnect_retries = 0;
  reconnect_retry_cur_sec = 0;
  reconnect_stop = false;
  reconnecting = false;
  actived = true;
  valid = true;
  stop_code = pos 0;
  stopping = false;
  last_error_status = pos 0;
}

-- After twenty attempts, each of which may have connected again.
abbrev used_up : Output
used_up = record new_output {
  reconnecting = true;
  reconnect_retries = 20;
  reconnect_retry_cur_sec = 900;
}

seconds_of_third : (reconnects 3 new_output).reconnect_retry_cur_sec ≡ 8
unfolding output_reconnect
seconds_of_third = refl

reconnects-Waits_example : Waits (reconnects (suc 9) new_output) 20 (suc 9) (min (2 * 2 ^ 9) 900)
reconnects-Waits_example =
    reconnects-Waits new_output 9 refl (omega arith) (omega arith) (omega arith)

reconnect_thread_keeps_example :
    ((reconnect_thread true true used_up).actived ≡ true)
    × ((output_signal_stop true mgw_disconnected (reconnect_thread true true used_up)).0 ≡ false)
    × ((output_signal_stop true mgw_disconnected
          (reconnect_thread true true used_up)).1.reconnecting
        ≡ false)
reconnect_thread_keeps_example =
    reconnect_thread_keeps used_up refl refl refl (omega arith) (omega arith)

-- A loss, an attempt that does not connect, and the next attempt.
lost_twice :
    Reach new_output 2
      (output_signal_stop true
        (negsuc 0)
        (reconnect_thread true false (output_signal_stop true mgw_disconnected new_output).1)).1
unfolding output_signal_stop output_reconnect reconnect_thread actual_start
lost_twice =
    reports (onward (reports here true mgw_disconnected) (wakes true false _)) true (negsuc 0)

attempts_in_a_row_example :
    (2 ≤ 20)
    × ((output_signal_stop true (negsuc 0) (
          reconnect_thread true false
            (output_signal_stop true mgw_disconnected new_output).1)).1.reconnect_retry_cur_sec
        ≤ 900)
attempts_in_a_row_example = attempts_in_a_row refl (omega arith) (omega arith) lost_twice

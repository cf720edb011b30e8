-- ===== src/Output.antt =====
-- mgw-core/core-api/mgw-output.c: how an output starts, stops and connects again. Threads are begun by
-- `pthread_create`, whose success is an argument, and the plugin's `start` answers with an argument.
pub mod Delay
pub mod Reach
mod Tests
use mgw.Prelude.{ℕ, ◌+◌, ◌*◌, Bool, true, false, ◌&&◌, ◌||◌, not, ltb, leb, ◌==◌, if◌then◌else◌}
use mgw.Prelude.Int.{ℤ, pos, negsuc}

-- What reconnection reads and writes of `struct mgw_output`. `reconnect_stop` and `stopping` say
-- that the event `reconnect_stop_event` is signalled and `stopping_event` is not. The plugin's
-- instance, `info_impl`, is there.
pub record Output : Type 0 where
  pub reconnect_retry_sec : ℕ
  pub reconnect_retry_max : ℕ
  pub reconnect_retries : ℕ
  pub reconnect_retry_cur_sec : ℕ
  pub reconnect_stop : Bool
  pub reconnecting : Bool
  pub actived : Bool
  pub valid : Bool
  pub stop_code : ℤ
  pub stopping : Bool
  pub last_error_status : ℤ

abbrev pub max_retry_sec : ℕ
max_retry_sec = 900

abbrev pub mgw_success : ℤ
mgw_success = pos 0

abbrev pub mgw_disconnected : ℤ
mgw_disconnected = negsuc 4

abbrev pub is_success : ℤ → Bool
is_success (pos n) = n == 0
is_success (negsuc n) = false

abbrev pub is_disconnected : ℤ → Bool
is_disconnected (pos n) = false
is_disconnected (negsuc n) = n == 4

-- `mgw_output_actual_start` once `stopping_event` is signalled; `started` is the plugin's answer.
pub actual_start : Bool → Output → Output
actual_start started s = record s { stop_code = pos 0; actived = s.valid && started }

-- `mgw_output_actual_stop` while no thread waits to connect, which it would join first.
pub actual_stop : Bool → Output → Output
actual_stop force s =
    let waked = record s {
      reconnect_stop = s.reconnect_stop || s.reconnecting;
      stopping = false;
      stop_code = if not force && s.reconnecting then mgw_success else s.stop_code;
      actived = false;
    } in
    if s.stopping && not force then s else waked

-- `reconnect_thread`: whether the wait ran out, and the plugin's answer.
pub reconnect_thread : Bool → Bool → Output → Output
reconnect_thread timed_out started s =
    let s1 = if timed_out then actual_start started s else s in
    if s1.reconnect_stop then record s1 { reconnecting = false } else s1

-- `output_reconnect`: whether it begins a thread that waits and connects, and the output. It takes a `ret` below 0 for a failure of
-- `pthread_create`, which fails with a positive number: `reconnecting` stays true without a thread.
pub output_reconnect : Bool → Output → Bool × Output
output_reconnect created s =
    let retries = if s.reconnecting then s.reconnect_retries else 0 in
    let cur_sec = if s.reconnecting then s.reconnect_retry_cur_sec else s.reconnect_retry_sec in
    let doubled = if ltb max_retry_sec (cur_sec * 2) then max_retry_sec else cur_sec * 2 in
    let exhausted = record s {
      reconnect_retries = retries;
      reconnect_retry_cur_sec = cur_sec;
      stop_code = mgw_disconnected;
      reconnecting = false;
    } in
    let waiting = record s {
      reconnect_retries = retries + 1;
      reconnect_retry_cur_sec = if retries == 0 then cur_sec else doubled;
      reconnect_stop = s.reconnecting && s.reconnect_stop;
      stop_code = mgw_disconnected;
      reconnecting = true;
    } in
    if leb s.reconnect_retry_max retries then (false, exhausted) else (created, waiting)

-- `can_reconnect`.
abbrev pub can_reconnect : Output → ℤ → Bool
can_reconnect s code =
    (s.reconnecting && not (is_success code))
    || (not (s.reconnect_retry_max == 0) && is_disconnected code)

-- `output_signal_stop`.
pub output_signal_stop : Bool → ℤ → Output → Bool × Output
output_signal_stop created code s =
    let s1 = record s {
      stop_code = code;
      last_error_status =
          if s.reconnect_retries == 0 && not (is_disconnected code)
          then code
          else s.last_error_status;
    } in
    if can_reconnect s1 code
    then output_reconnect created s1
    else (false, record s1 { stopping = false; actived = false })

-- ===== src/Connections/SpecialSocket.antt =====
-- backend/srs/connections/SpecialSocketBase.hpp and .cpp: a socket that listens until it fails or is
-- cancelled. Its two coroutines, joined by `||` of asio, and the one of `cancel_listen_after` go on
-- by completions of asynchronous operations, which are the events here. Of asio the model has that
-- the end of one of the joined coroutines cancels what the other waits for, that cancelling a timer
-- ends the waits that have begun, and that a coroutine that was cancelled throws when it waits anew.
pub mod Records
pub mod Closed
pub mod Phases
pub mod Finish
mod Tests
use srs_control.Base.Expected.{Expected, value, unexpected}
use srs_control.Base.{
  ℕ, ◌+◌, ◌%◌, ◌^◌, Bool, true, false, not, ◌&&◌, List, [], ◌∷◌, ◌++◌, Option, none, some,
  if◌then◌else◌, length,
}

-- What a derived class brings.
pub record SpecialSocketDerived (S : Type 0) : Type 0 where
  pub response_handler : S → (remote_endpoint : ℕ) (response : List ℕ) → S
  pub is_finished : S → Bool
  pub before_socket_close : S → S

-- `async_listen_all_connections`: not begun, waiting for a message, waiting after it was cancelled,
-- at its end, or ended by an exception.
pub data Listen : Type 0 where
  spawned receiving aborting closed thrown : Listen

-- `cancel_coroutine`: not begun, waiting, its wait cancelled, or at its end.
pub data Cancel : Type 0 where
  spawned waiting released ended : Cancel

-- The coroutine of `cancel_listen_after`: not there, not begun, waiting, or at its end.
pub data Watch : Type 0 where
  absent spawned : Watch
  armed : (is_finished : Bool) → Watch
  done : Watch

pub data FutureStatus : Type 0 where
  ready timeout : FutureStatus

-- `records` are the messages that were handled, which the program does not keep.
pub record SpecialSocket (S : Type 0) : Type 0 where
  pub port_number : ℕ
  pub is_open : Bool
  pub valid : Bool
  pub listening : Listen
  pub cancelling : Cancel
  pub watching : Watch
  pub n_records : ℕ
  pub n_bytes : ℕ
  pub total_time_ns : ℕ
  pub n_errors : ℕ
  pub derived : S
  pub records : List (ℕ × List ℕ)

-- What happens: a coroutine begins, a message comes (after which the handler takes so long) or the
-- receiving fails, and the waits end.
pub data Event : Type 0 where
  listen_begins cancel_begins watch_begins : Event
  received : (remote_endpoint : ℕ) (response : List ℕ) (time_ns : ℕ) → Event
  receive_failed cancel_completes watch_completes : Event

module _ {S : Type 0} (d : SpecialSocketDerived S) where
  unfoldable pub listen : SpecialSocket S → SpecialSocket S
  listen s = record s { valid = true; listening = spawned; cancelling = spawned }

  -- `create`, with what binding the socket reports.
  unfoldable pub create :
      {E : Type 0}
      → (port_number : ℕ) (derived : S) (error_code : Option E) → Expected E (SpecialSocket S)
  create port_number derived (some e) = unexpected e
  create port_number derived none = value (
      listen (record {
        port_number = port_number;
        is_open = true;
        valid = false;
        listening = spawned;
        cancelling = spawned;
        watching = absent;
        n_records = 0;
        n_bytes = 0;
        total_time_ns = 0;
        n_errors = 0;
        derived = derived;
        records = [];
      }))

  unfoldable pub cancel_listen_after : SpecialSocket S → SpecialSocket S
  cancel_listen_after s = record s { watching = spawned }

  -- The joined coroutine is cancelled when the listening ends, and the other way round.
  unfoldable pub cancelled_wait : Cancel → Cancel
  cancelled_wait spawned = released
  cancelled_wait waiting = released
  cancelled_wait released = released
  cancelled_wait ended = ended

  unfoldable pub cancelled_listen : Listen → Listen
  cancelled_listen spawned = thrown
  cancelled_listen receiving = aborting
  cancelled_listen aborting = aborting
  cancelled_listen closed = closed
  cancelled_listen thrown = thrown

  -- The body of the loop on a message.
  unfoldable pub handle :
      SpecialSocket S → (endpoint : ℕ) (response : List ℕ) (time_ns : ℕ) → SpecialSocket S
  handle s endpoint response time_ns = record s {
    n_records = (s.n_records + 1) % 2 ^ 64;
    n_bytes = (s.n_bytes + length response) % 2 ^ 64;
    total_time_ns = (s.total_time_ns + time_ns) % 2 ^ 64;
    derived = d.response_handler s.derived endpoint response;
    records = s.records ++ (endpoint, response) ∷ [];
  }

  -- What follows the loop.
  unfoldable pub close : SpecialSocket S → SpecialSocket S
  close s = record s {
    derived = d.before_socket_close s.derived;
    is_open = false;
    listening = closed;
    cancelling = cancelled_wait s.cancelling;
  }

  unfoldable pub throw : SpecialSocket S → SpecialSocket S
  throw s = record s { listening = thrown; cancelling = cancelled_wait s.cancelling }

  unfoldable pub on_received :
      Listen → SpecialSocket S → (endpoint : ℕ) (response : List ℕ) (time_ns : ℕ) → SpecialSocket S
  on_received receiving s endpoint response time_ns = handle s endpoint response time_ns
  on_received aborting s endpoint response time_ns = throw (handle s endpoint response time_ns)
  on_received _ s endpoint response time_ns = s

  unfoldable pub on_receive_failed : Listen → SpecialSocket S → SpecialSocket S
  on_receive_failed receiving s = close s
  on_receive_failed aborting s = close s
  on_receive_failed _ s = s

  unfoldable pub on_listen_begins : Listen → SpecialSocket S → SpecialSocket S
  on_listen_begins spawned s = record s { listening = receiving }
  on_listen_begins _ s = s

  unfoldable pub on_cancel_begins : Cancel → SpecialSocket S → SpecialSocket S
  on_cancel_begins spawned s = record s { cancelling = waiting }
  on_cancel_begins _ s = s

  unfoldable pub on_cancel_completes : Cancel → SpecialSocket S → SpecialSocket S
  on_cancel_completes released s = record s {
    cancelling = ended;
    listening = cancelled_listen s.listening;
  }
  on_cancel_completes _ s = s

  unfoldable pub on_watch_begins : Watch → SpecialSocket S → SpecialSocket S
  on_watch_begins spawned s = record s { watching = armed (d.is_finished s.derived) }
  on_watch_begins _ s = s

  -- `cancel_timer_.cancel()`.
  unfoldable pub cancel_timer : Cancel → Cancel
  cancel_timer waiting = released
  cancel_timer c = c

  unfoldable pub on_watch_completes : Watch → SpecialSocket S → SpecialSocket S
  on_watch_completes (armed is_finished) s =
      let is_late = not is_finished && not (d.is_finished s.derived) in
      record s {
        cancelling = cancel_timer s.cancelling;
        watching = done;
        n_errors = if is_late then s.n_errors + 1 else s.n_errors;
      }
  on_watch_completes _ s = s

  unfoldable pub step : Event → SpecialSocket S → SpecialSocket S
  step listen_begins s = on_listen_begins s.listening s
  step cancel_begins s = on_cancel_begins s.cancelling s
  step watch_begins s = on_watch_begins s.watching s
  step (received endpoint response time_ns) s = on_received s.listening s endpoint response time_ns
  step receive_failed s = on_receive_failed s.listening s
  step cancel_completes s = on_cancel_completes s.cancelling s
  step watch_completes s = on_watch_completes s.watching s

  unfoldable pub run : List Event → SpecialSocket S → SpecialSocket S
  run [] s = s
  run (e ∷ es) s = run es (step e s)

  abbrev pub has_ended : Listen → Cancel → Bool
  has_ended closed ended = true
  has_ended thrown ended = true
  has_ended _ _ = false

  -- The state of `listen_future_` after a wait.
  unfoldable pub wait_for_listen_finish : SpecialSocket S → Option FutureStatus
  wait_for_listen_finish s =
      if s.valid then some (if has_ended s.listening s.cancelling then ready else timeout) else none

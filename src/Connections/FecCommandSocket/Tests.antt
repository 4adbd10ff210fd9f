-- ===== src/Connections/FecCommandSocket/Tests.antt =====
-- A session of backend/srs/connections/FecSwitchSocket.cpp with a stopper for two front ends, the
-- second of which does not answer.
use srs_control.Base.{ℕ, ◌≡◌, refl, ◌↔◌, true, List, [], ◌∷◌}
use srs_control.Connections.Command.{CommandBase, stopper, create_switch}
use srs_control.Connections.FecCommandSocket.Session.{
  launched, IsReported, sent_in_time, run_session-register_report,
}
use srs_control.Connections.FecCommandSocket.{
  FecCommandSocket, print_error, is_finished, SessionEvent, socket_event, action_sent, run_session,
}
use srs_control.Connections.SpecialSocket.{
  SpecialSocket, listen_begins, cancel_begins, watch_begins, received, receive_failed,
  cancel_completes, watch_completes, spawned, absent,
}
use srs_control.Converters.Archive.{archive}
use srs_control.Report
use srs_control.Report.{FecSwitchStat, register_switch_socket_result, time_stamp}

abbrev commands : List CommandBase
commands = create_switch archive stopper 3 ∷ create_switch archive stopper 4 ∷ []

abbrev stat_of : (receiv_time : ℕ) → FecSwitchStat
stat_of receiv_time = time_stamp (b'S' ∷ []) 10 receiv_time

abbrev begun : SpecialSocket FecCommandSocket
begun = record {
  port_number = 6600;
  is_open = true;
  valid = true;
  listening = spawned;
  cancelling = spawned;
  watching = absent;
  n_records = 0;
  n_bytes = 0;
  total_time_ns = 0;
  n_errors = 0;
  derived = launched commands (7 ∷ []) Report.create;
  records = [];
}

-- The second command is sent first, and the first one after the closing.
abbrev events : List SessionEvent
events =
    socket_event listen_begins
    ∷ action_sent (4 ∷ []) (stat_of 12)
    ∷ socket_event cancel_begins
    ∷ socket_event watch_begins
    ∷ socket_event (received 3 (create_switch archive stopper 3).write_msg_response_buffer 10)
    ∷ socket_event watch_completes
    ∷ socket_event cancel_completes
    ∷ socket_event receive_failed
    ∷ action_sent (3 ∷ []) (stat_of 90)
    ∷ []

run_session-register_report_example :
    IsReported commands
      (7 ∷ [])
      Report.create
      (sent_in_time events begun)
      (run_session events begun)
    × ((print_error (run_session events begun).derived ≡ [])
        ↔ (is_finished (run_session events begun).derived ≡ true))
run_session-register_report_example =
    run_session-register_report commands (7 ∷ []) Report.create events begun
      (record { derived = refl; n_records = refl; n_bytes = refl; is_open = refl })

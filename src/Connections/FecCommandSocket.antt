-- ===== src/Connections/FecCommandSocket.antt =====
-- backend/srs/connections/FecSwitchSocket.cpp and .hpp: the whole socket that sends commands and waits
-- for their responses, as a class derived from that of SpecialSocketBase.hpp. The log is left out but
-- for the responses that an error names.
pub mod Session
mod Tests
use srs_control.Base.{ℕ, Bool, List, [], ◌∷◌, ◌++◌, Option, none, some, map, if◌then◌else◌}
use srs_control.Connections.Command.{CommandBase}
use srs_control.Connections.CommandSocket
use srs_control.Connections.CommandSocket.{
  SmallConnections, AllConnections, has_no_connections, register_send_action,
}
use srs_control.Connections.SpecialSocket.{SpecialSocketDerived, SpecialSocket, Event, step}
use srs_control.Report.{AppReport, SocketTimes, FecSwitchStat, register_switch_socket_result}

-- The report is a pointer, which may be null; an action is the command that it sends.
pub record FecCommandSocket : Type 0 where
  pub all_connections : AllConnections
  pub time_stamps : SocketTimes
  pub action_queue : List CommandBase
  pub report : Option AppReport
  pub local_endpoint : List ℕ

unfoldable pub create : (local_endpoint : List ℕ) (report : Option AppReport) → FecCommandSocket
create local_endpoint report = record {
  all_connections = [];
  time_stamps = [];
  action_queue = [];
  report = report;
  local_endpoint = local_endpoint;
}

unfoldable pub register_send_action_imp : FecCommandSocket → CommandBase → FecCommandSocket
register_send_action_imp s connection = record s {
  action_queue = s.action_queue ++ connection ∷ [];
  all_connections = register_send_action s.all_connections connection;
}

unfoldable pub register_actions : FecCommandSocket → List CommandBase → FecCommandSocket
register_actions s [] = s
register_actions s (c ∷ connections) = register_actions (register_send_action_imp s c) connections

unfoldable pub log_time_stamps :
    FecCommandSocket → (remote_port : List ℕ) → FecSwitchStat → FecCommandSocket
log_time_stamps s remote_port stat = record s {
  time_stamps = s.time_stamps ++ (remote_port, stat) ∷ [];
}

-- `launch_send_actions` starts the actions together, and the socket has none afterwards. Each of them
-- goes on when it has sent its command, in any order, and logs its time stamp then.
unfoldable pub launch_send_actions : FecCommandSocket → FecCommandSocket
launch_send_actions s = record s { action_queue = [] }

-- The responses that are printed for the connections of an endpoint.
unfoldable pub print_connections : SmallConnections → List (List ℕ)
print_connections connections = map (λ c. c.write_msg_response_buffer) connections

-- The endpoints that `print_error` names, each with the responses that it still waits for.
unfoldable pub waiting_responses : AllConnections → List (ℕ × List (List ℕ))
waiting_responses [] = []
waiting_responses ((endpoint, connections) ∷ rest) =
    let others = waiting_responses rest in
    if has_no_connections connections
    then others
    else (endpoint, print_connections connections) ∷ others

unfoldable pub print_error : FecCommandSocket → List (ℕ × List (List ℕ))
print_error s = waiting_responses s.all_connections

unfoldable pub response_handler :
    FecCommandSocket → (endpoint : ℕ) (response : List ℕ) → FecCommandSocket
response_handler s endpoint response = record s {
  all_connections = (CommandSocket.response_handler s.all_connections endpoint response).1;
}

unfoldable pub is_finished : FecCommandSocket → Bool
is_finished s = CommandSocket.is_finished s.all_connections

unfoldable pub with_report : FecCommandSocket → Option AppReport → FecCommandSocket
with_report s none = s
with_report s (some report) = record s {
  report = some (register_switch_socket_result report s.local_endpoint s.time_stamps);
  time_stamps = [];
}

unfoldable pub register_report : FecCommandSocket → FecCommandSocket
register_report s = with_report s s.report

unfoldable pub derived : SpecialSocketDerived FecCommandSocket
derived = record {
  response_handler = response_handler;
  is_finished = is_finished;
  before_socket_close = register_report;
}

-- What happens to the socket with its actions: an event of the socket, or an action that has sent.
pub data SessionEvent : Type 0 where
  socket_event : Event → SessionEvent
  action_sent : (remote_port : List ℕ) (stat : FecSwitchStat) → SessionEvent

unfoldable pub session_step :
    SessionEvent → SpecialSocket FecCommandSocket → SpecialSocket FecCommandSocket
session_step (socket_event e) s = step derived e s
session_step (action_sent remote_port stat) s = record s {
  derived = log_time_stamps s.derived remote_port stat;
}

unfoldable pub run_session :
    List SessionEvent → SpecialSocket FecCommandSocket → SpecialSocket FecCommandSocket
run_session [] s = s
run_session (e ∷ es) s = run_session es (session_step e s)

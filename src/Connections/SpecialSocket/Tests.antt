-- ===== src/Connections/SpecialSocket/Tests.antt =====
-- The socket of backend/srs/connections/SpecialSocketBase.hpp that waits for the response to a
-- stopper, as backend/srs/connections/FecSwitchSocket.cpp derives it, without its report.
use srs_control.Base.Expected.{value, unexpected}
use srs_control.Base.{ℕ, ◌≡◌, refl, true, List, [], ◌∷◌, none, some}
use srs_control.Connections.Command.{stopper, create_switch}
use srs_control.Connections.CommandSocket.{AllConnections, response_handler, is_finished}
use srs_control.Connections.SpecialSocket.Finish.{wait_for_listen_finish-ready}
use srs_control.Connections.SpecialSocket.Records.{IsRecorded, run-IsRecorded}
use srs_control.Connections.SpecialSocket.{
  SpecialSocketDerived, SpecialSocket, Event, listen_begins, cancel_begins, received,
  receive_failed, cancel_completes, watch_completes, create, listen, run, wait_for_listen_finish,
  ready, spawned, absent, waiting, receiving, armed,
}
use srs_control.Converters.Archive.{archive}

abbrev fec : SpecialSocketDerived AllConnections
fec = record {
  response_handler = λ s endpoint response. (response_handler s endpoint response).1;
  is_finished = is_finished;
  before_socket_close = λ s. s;
}

abbrev waiting_for : AllConnections
waiting_for = (3, create_switch archive stopper 3 ∷ []) ∷ []

abbrev response : List ℕ
response = (create_switch archive stopper 3).write_msg_response_buffer

abbrev fresh : SpecialSocket AllConnections
fresh = record {
  port_number = 6600;
  is_open = true;
  valid = true;
  listening = spawned;
  cancelling = spawned;
  watching = absent;
  n_records = 0;
  n_bytes = 0;
  total_time_ns = 0;
  n_errors = 0;
  derived = waiting_for;
  records = [];
}

created : create fec {E = ℕ} 6600 waiting_for none ≡ value fresh
unfolding create listen
created = refl

not_bound : create fec {E = ℕ} 6600 waiting_for (some 98) ≡ unexpected 98
unfolding create
not_bound = refl

abbrev events : List Event
events =
    listen_begins
    ∷ cancel_begins
    ∷ received 4 (1 ∷ 2 ∷ []) 10
    ∷ received 3 response 20
    ∷ receive_failed
    ∷ cancel_completes
    ∷ []

run-IsRecorded_example : IsRecorded fec waiting_for (run fec events fresh)
run-IsRecorded_example =
    run-IsRecorded fec waiting_for events fresh
      (record { derived = refl; n_records = refl; n_bytes = refl; is_open = refl })

abbrev expecting : SpecialSocket AllConnections
expecting = record fresh { listening = receiving; cancelling = waiting; watching = armed true }

wait_for_listen_finish-ready_example :
    wait_for_listen_finish fec (
      run fec
        (watch_completes ∷ received 3 response 20 ∷ cancel_completes ∷ received 3 response 20 ∷ [])
        expecting)
    ≡ some ready
wait_for_listen_finish-ready_example =
    wait_for_listen_finish-ready fec expecting true (received 3 response 20 ∷ []) [] []
      (received 3 response 20) refl refl refl tt

-- ===== src/Application/Tests.antt =====
-- Runs of backend/srs_control.cpp with backend/srs/Application.cpp.
use srs_control.Base.Expected.{value, unexpected}
use srs_control.Base.{ℕ, ◌≡◌, ◌≤◌, ◌↔◌, refl, true, false, not, some, [], ◌∷◌, ◌++◌, ◌==◌, arith}
use srs_control.Application.{
  timeout, ready, bind_failed, returns, undefined, System, App, Config, create, init, port_opened,
  port_cancelled, workflow_started, workflow_stopped, monitor_stopped, work_guard_reset,
  threads_joined, sent, all, run_action, exit_and_switch_off, register_all,
  set_remote_fec_endpoints, add_all, add_remote_fec_endpoint, add_first, check_port_number_validity,
  find_port,
}
use srs_control.Application.Answered.{times, answers, listen_all-is_finished}
use srs_control.Application.Session.{run_all_lem}
use srs_control.Application.Switching.{is_error, exit_and_switch_off_undefined_iff}
use srs_control.Connections.Command.{starter, stopper}
use srs_control.Connections.CommandSocket.{listen_all, is_finished}
use srs_control.Converters.Archive.{archive}
use srs_control.Emulators.Fec.{Emulator}

abbrev config : Config
config = record {
  fec_control_local_port = 6007;
  fec_data_receive_ports = 6006 ∷ 6008 ∷ [];
  remote_fec_ips = (1 ∷ []) ∷ (2 ∷ []) ∷ [];
  data_buffer_size = 100;
}

-- The port 6008 is in use.
abbrev system : System
system = record {
  resolve = λ ip port. 7 ∷ [];
  control_socket = λ s. value ready;
  is_free = λ port. not (port == 6008);
  handler_is_early = false;
}

abbrev app : App
app = record (create config) { has_workflow_handler = true; remote_fec_endpoints = 7 ∷ 7 ∷ [] }

initialized : init system (create config) ≡ value app
unfolding init set_remote_fec_endpoints add_all add_remote_fec_endpoint add_first
    check_port_number_validity find_port
initialized = refl

run_all_lem_example :
    (b : App) × (run_action system archive all app ≡ returns b)
    × (b.events
        ≡ workflow_started
          ∷ port_opened 6006
          ∷ (sent system archive starter (7 ∷ 7 ∷ [])
              ++ (monitor_stopped
                  ∷ (sent system archive stopper (7 ∷ 7 ∷ [])
                      ++ (port_cancelled 6006
                          ∷ workflow_stopped
                          ∷ work_guard_reset
                          ∷ threads_joined
                          ∷ [])))))
run_all_lem_example = run_all_lem system archive app ready refl refl refl refl refl

-- The starters were not answered in time.
abbrev late : App
late = record app { switch_on_future = value (some timeout); data_sockets = 6006 ∷ [] }

abbrev unbound : App
unbound = record app { switch_on_future = unexpected (bind_failed 13) }

exit_and_switch_off_undefined_iff_example :
    (exit_and_switch_off system archive unbound ≡ undefined)
    ↔ (is_error unbound.switch_on_future ≡ true)
exit_and_switch_off_undefined_iff_example =
    exit_and_switch_off_undefined_iff system archive unbound refl

abbrev fec : Emulator
fec = record { is_switched_off = true; is_listening = true; frame_counter = 0 }

enough : (k : ℕ) → times k (3 ∷ 4 ∷ []) ≤ times k (4 ∷ 3 ∷ 5 ∷ [])
enough k = omega arith

listen_all-is_finished_example :
    is_finished (
      listen_all
        (register_all system archive starter [] (3 ∷ 4 ∷ []))
        (answers system archive starter true (λ _. fec) (4 ∷ 3 ∷ 5 ∷ [])))
    ≡ true
listen_all-is_finished_example =
    listen_all-is_finished system archive starter true (λ _. fec) (3 ∷ 4 ∷ []) (4 ∷ 3 ∷ 5 ∷ [])
      enough

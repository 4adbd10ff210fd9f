-- ===== src/Application.antt =====
-- backend/srs/Application.cpp and .hpp, the class `App`, and the actions of backend/srs_control.cpp.
-- What the system and the library asio answer (the resolver, whether a port can be bound, how the
-- wait for a future ends) is a parameter. What the program does outside is a list of events, the
-- latest last. The log, the threads and the times to wait are left out.
pub mod Switching
pub mod Session
pub mod Answered
pub mod Tests
use srs_control.Base.Expected.{Expected, value, unexpected}
use srs_control.Base.{
  ℕ, Bool, true, false, not, List, [], ◌∷◌, ◌++◌, map, Option, none, some, ◌==◌, if◌then◌else◌,
}
use srs_control.Connections.Command.{
  CommandBase, Switch, starter, stopper, create_switch, send_message_from,
}
use srs_control.Connections.CommandSocket.{AllConnections, register_send_action}
use srs_control.Converters.Zpp.{Zpp}

-- `std::future_status`.
pub data FutureStatus : Type 0 where
  ready timeout deferred : FutureStatus

-- A future made by default is not valid; of a valid one the status that the wait for it ends with.
abbrev pub Future : Type 0
Future = Option FutureStatus

-- The error codes that occur: that of the socket, and `asio::error::invalid_argument`.
pub data ErrorCode : Type 0 where
  bind_failed : ℕ → ErrorCode
  invalid_argument : ErrorCode

abbrev pub SwitchFutureType : Type 0
SwitchFutureType = Expected ErrorCode Future

-- The result of a call, or undefined behaviour.
pub data Defined {ℓ} (A : Type ℓ) : Type ℓ where
  returns : A → Defined A
  undefined : Defined A

abbrev pub and_then {ℓ κ} : {A : Type ℓ} {B : Type κ} → Defined A → (A → Defined B) → Defined B
and_then (returns a) f = f a
and_then undefined f = undefined

-- `srs::Config`, as far as the class reads it.
pub record Config : Type 0 where
  pub fec_control_local_port : ℕ
  pub fec_data_receive_ports : List ℕ
  pub remote_fec_ips : List (List ℕ)
  pub data_buffer_size : ℕ

-- What happens outside of the program.
pub data Event : Type 0 where
  command_sent : Switch → CommandBase → Event
  port_opened port_cancelled : ℕ → Event
  workflow_started workflow_stopped monitor_stopped work_guard_reset threads_joined : Event

pub record System : Type 0 where
  -- The endpoints that the resolver finds for an address and a port.
  pub resolve : List ℕ → ℕ → List ℕ
  -- Whether a control socket can be bound for a command, and what its future will say.
  pub control_socket : Switch → Expected ErrorCode FutureStatus
  -- Whether a data socket can be bound to a port.
  pub is_free : ℕ → Bool
  -- Whether the handler of the signal or of the timer runs before `main` destroys the application, in
  -- a run that does not wait for it.
  pub handler_is_early : Bool

pub record App : Type 0 where
  pub config : Config
  pub remote_fec_endpoints : List ℕ
  pub switch_on_future : SwitchFutureType
  pub switch_off_future : SwitchFutureType
  -- Whether there is a workflow handler: it is made by `init`, and destroyed before the exit helper.
  pub has_workflow_handler : Bool
  pub data_sockets : List ℕ
  pub events : List Event

abbrev pub create : Config → App
create config = record {
  config = config;
  remote_fec_endpoints = [];
  switch_on_future = value none;
  switch_off_future = value none;
  has_workflow_handler = false;
  data_sockets = [];
  events = [];
}

unfoldable pub emit : App → List Event → App
emit a es = record a { events = a.events ++ es }

abbrev pub default_srs_control_port : ℕ
default_srs_control_port = 6600

unfoldable pub add_first : List ℕ → (found : List ℕ) → List ℕ
add_first endpoints [] = endpoints
add_first endpoints (e ∷ _) = endpoints ++ e ∷ []

unfoldable pub find_port : List ℕ → ℕ → Bool
find_port [] port = false
find_port (p ∷ ps) port = if p == port then true else find_port ps port

pub data Exception : Type 0 where
  same_port : ℕ → Exception

unfoldable pub check_port_number_validity : App → Expected Exception Bool
check_port_number_validity a =
    if find_port a.config.fec_data_receive_ports a.config.fec_control_local_port
    then unexpected (same_port a.config.fec_control_local_port)
    else value true

-- The dereference of a result that holds an error is undefined.
unfoldable pub wait_for_switch_action : SwitchFutureType → Defined (Expected ErrorCode FutureStatus)
wait_for_switch_action (unexpected e) = undefined
wait_for_switch_action (value none) = returns (unexpected invalid_argument)
wait_for_switch_action (value (some status)) = returns (value status)

-- A call of the workflow handler, which is undefined without one.
unfoldable pub call_workflow : App → Event → Defined App
call_workflow a e = if a.has_workflow_handler then returns (emit a (e ∷ [])) else undefined

-- The members that are destroyed before the exit helper.
unfoldable pub destroy_members : App → App
destroy_members a = record a { data_sockets = []; has_workflow_handler = false }

-- `action_after_destructor` up to the wait for the working thread, which ends after the handler of
-- the signal or of the timer.
unfoldable pub wait_for_switch_off : App → Defined App
wait_for_switch_off a =
    let released = emit a (work_guard_reset ∷ []) in
    and_then (wait_for_switch_action released.switch_off_future) λ _. returns released

unfoldable pub join_threads : App → App
join_threads a = emit a (threads_joined ∷ [])

module _ (sys : System) where
  unfoldable pub add_remote_fec_endpoint : App → (remote_ip : List ℕ) (port_number : ℕ) → App
  add_remote_fec_endpoint a remote_ip port_number = record a {
    remote_fec_endpoints = add_first a.remote_fec_endpoints (sys.resolve remote_ip port_number);
  }

  unfoldable pub add_all : App → List (List ℕ) → App
  add_all a [] = a
  add_all a (ip ∷ ips) = add_all (add_remote_fec_endpoint a ip default_srs_control_port) ips

  unfoldable pub set_remote_fec_endpoints : App → App
  set_remote_fec_endpoints a = add_all a a.config.remote_fec_ips

  unfoldable pub init : App → Expected Exception App
  init a =
      let a' = set_remote_fec_endpoints (record a { has_workflow_handler = true }) in
      elim (check_port_number_validity a') [ value _ ↦ value a' | unexpected e ↦ unexpected e ]

  unfoldable pub read_port : App → ℕ → App
  read_port a port_num =
      if sys.is_free port_num
      then emit (record a { data_sockets = a.data_sockets ++ port_num ∷ [] })
          (port_opened port_num ∷ [])
      else a

  unfoldable pub read_ports : App → List ℕ → App
  read_ports a [] = a
  read_ports a (p ∷ ps) = read_ports (read_port a p) ps

  unfoldable pub read_data : App → App
  read_data a = read_ports a a.config.fec_data_receive_ports

  module _ (zpp : Zpp) where
    unfoldable pub fec_connection : Switch → (remote_endpoint : ℕ) → CommandBase
    fec_connection s e = send_message_from zpp s (create_switch zpp s e)

    -- The connections that the new control socket waits for.
    unfoldable pub register_all : Switch → AllConnections → List ℕ → AllConnections
    register_all s all [] = all
    register_all s all (e ∷ es) = register_all s (register_send_action all (fec_connection s e)) es

    -- `launch_send_actions` sends them all.
    unfoldable pub sent : Switch → List ℕ → List Event
    sent s es = map (λ e. command_sent s (fec_connection s e)) es

    unfoldable pub switch_with :
        Switch → Expected ErrorCode FutureStatus → App → SwitchFutureType × App
    switch_with s (unexpected e) a = (unexpected e, a)
    switch_with s (value status) a = (value (some status), emit a (sent s a.remote_fec_endpoints))

    unfoldable pub switch_fecs : Switch → App → SwitchFutureType × App
    switch_fecs s a = switch_with s (sys.control_socket s) a

    unfoldable pub switch_on : App → App
    switch_on a =
        let (future, a') = switch_fecs starter a in record a' { switch_on_future = future }

    unfoldable pub switch_off : App → App
    switch_off a =
        let (future, a') = switch_fecs stopper a in record a' { switch_off_future = future }

    unfoldable pub switch_off_if : App → Expected ErrorCode FutureStatus → App
    switch_off_if a (value ready) = switch_off a
    switch_off_if a (value timeout) = a
    switch_off_if a (value deferred) = a
    switch_off_if a (unexpected _) = a

    -- The sockets are cancelled one after the other.
    unfoldable pub wait_for_reading_finish : App → App
    wait_for_reading_finish a = emit a (map port_cancelled a.data_sockets)

    unfoldable pub exit_and_switch_off : App → Defined App
    exit_and_switch_off a = and_then (call_workflow a monitor_stopped) λ stopping.
        and_then (wait_for_switch_action stopping.switch_on_future) λ status.
          call_workflow (wait_for_reading_finish (switch_off_if stopping status)) workflow_stopped

    -- `main` after `init`, up to the end of the program. With a workflow it waits for the workflow,
    -- that is for the handler of the signal or of the timer, before the application is destroyed;
    -- without one, that handler runs before the application is destroyed, or the destructor waits
    -- for it.
    unfoldable pub with_workflow : App → Defined App
    with_workflow a = and_then (exit_and_switch_off a) λ stopped.
        and_then (wait_for_switch_off (destroy_members stopped)) λ b. returns (join_threads b)

    unfoldable pub without_workflow : App → Defined App
    without_workflow a =
        let late =
          and_then (wait_for_switch_off (destroy_members a))
            λ waiting. and_then (exit_and_switch_off waiting) λ b. returns (join_threads b) in
        if sys.handler_is_early then with_workflow a else late

-- `srs::common::ActionMode`, whose last value is called none.
pub data ActionMode : Type 0 where
  all acq_on acq_off read_only no_action : ActionMode

module _ (sys : System) (zpp : Zpp) where
  unfoldable pub run_action : ActionMode → App → Defined App
  run_action all a =
      and_then (call_workflow a workflow_started)
        λ b. with_workflow sys zpp (switch_on sys zpp (read_data sys b))
  run_action acq_on a = without_workflow sys zpp (switch_on sys zpp a)
  run_action acq_off a = without_workflow sys zpp (switch_off sys zpp a)
  run_action read_only a =
      and_then (call_workflow a workflow_started) λ b. with_workflow sys zpp (read_data sys b)
  run_action no_action a = without_workflow sys zpp a

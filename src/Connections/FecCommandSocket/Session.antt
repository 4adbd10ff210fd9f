-- ===== src/Connections/FecCommandSocket/Session.antt =====
-- backend/srs/connections/FecSwitchSocket.cpp on backend/srs/connections/SpecialSocketBase.hpp: a
-- session from the registered commands to the report.
use mathlib.Core.List.{append_assoc, append-nil}
use srs_control.Base.{
  ℕ, ◌≡◌, refl, ap, ◌∙◌, sym, subst, inl, inr, Bool-cases, Bool, true, false, List, [], ◌∷◌, ◌++◌,
  some, if◌then◌else◌, arith, ◌↔◌,
}
use srs_control.Connections.Command.{CommandBase}
use srs_control.Connections.CommandSocket
use srs_control.Connections.CommandSocket.{
  SmallConnections, AllConnections, has_no_connections, register_send_action, listen_all,
}
use srs_control.Connections.FecCommandSocket.{
  FecCommandSocket, create, register_send_action_imp, register_actions, log_time_stamps,
  SessionEvent, socket_event, action_sent, session_step, run_session, launch_send_actions,
  waiting_responses, print_error, response_handler, is_finished, with_report, register_report,
  derived,
}
use srs_control.Connections.SpecialSocket.Closed.{IsKeptClosed, step-IsKeptClosed}
use srs_control.Connections.SpecialSocket.Records.{
  IsRecorded, IsRecordedIf, handled, is_closed, step-IsRecorded,
}
use srs_control.Connections.SpecialSocket.{
  SpecialSocket, step, Listen, spawned, receiving, aborting, closed, thrown,
}
use srs_control.Report.{AppReport, SocketTimes, FecSwitchStat, register_switch_socket_result}

-- The connections of commands that are registered one after another.
abbrev pub connections_of : AllConnections → List CommandBase → AllConnections
connections_of all_connections [] = all_connections
connections_of all_connections (c ∷ commands) =
    connections_of (register_send_action all_connections c) commands

register_actions-eq :
    (s : FecCommandSocket) (cs : List CommandBase)
    → register_actions s cs ≡ record s {
      action_queue = s.action_queue ++ cs;
      all_connections = connections_of s.all_connections cs;
    }
unfolding register_actions register_send_action_imp
register_actions-eq s [] = rw append-nil
register_actions-eq s (c ∷ cs) =
    register_actions-eq (register_send_action_imp s c) cs
    ∙ rw (append_assoc s.action_queue (c ∷ []) cs)

handled-eq :
    (s : FecCommandSocket) (records : List (ℕ × List ℕ))
    → handled derived s records
      ≡ record s { all_connections = listen_all s.all_connections records }
unfolding derived response_handler listen_all
handled-eq s [] = refl
handled-eq s ((endpoint, response) ∷ records) =
    handled-eq (response_handler s endpoint response) records

-- An error would name no endpoint exactly if the socket is finished.
waiting_responses_iff :
    (cs : AllConnections) → (waiting_responses cs ≡ []) ↔ (CommandSocket.is_finished cs ≡ true)
unfolding waiting_responses CommandSocket.is_finished has_no_connections
waiting_responses_iff [] = (λ h. refl, λ h. refl)
waiting_responses_iff ((e, []) ∷ rest) = waiting_responses_iff rest
waiting_responses_iff ((e, c ∷ cs) ∷ rest) = (λ h. ground arith, λ h. ground arith)

is_closed-closed : (l : Listen) → is_closed l ≡ true → l ≡ closed
is_closed-closed closed e = refl
is_closed-closed spawned e = grind arith
is_closed-closed receiving e = grind arith
is_closed-closed aborting e = grind arith
is_closed-closed thrown e = grind arith

-- The time stamps that were logged before the socket was closed.
abbrev pub sent_in_time : List SessionEvent → SpecialSocket FecCommandSocket → SocketTimes
sent_in_time [] s = []
sent_in_time (socket_event e ∷ es) s = sent_in_time es (step derived e s)
sent_in_time (action_sent remote_port stat ∷ es) s =
    let others = sent_in_time es (session_step (action_sent remote_port stat) s) in
    if is_closed s.listening then [] else (remote_port, stat) ∷ others

module _ (commands : List CommandBase) (local_endpoint : List ℕ) (report : AppReport) where
  -- The socket when its commands were registered and their sending was started, and with some time
  -- stamps.
  abbrev pub launched : FecCommandSocket
  launched = launch_send_actions (register_actions (create local_endpoint (some report)) commands)

  abbrev logged : SocketTimes → FecCommandSocket
  logged time_stamps = record {
    all_connections = connections_of [] commands;
    time_stamps = time_stamps;
    action_queue = [];
    report = some report;
    local_endpoint = local_endpoint;
  }

  launched-eq : launched ≡ logged []
  unfolding launch_send_actions create
  launched-eq =
      ap launch_send_actions (register_actions-eq (create local_endpoint (some report)) commands)

  -- What is claimed of a state in which these were logged in time.
  pub record IsReported (time_stamps : SocketTimes) (t : SpecialSocket FecCommandSocket)
      : Type 0 where
    pub all_connections :
        t.derived.all_connections ≡ listen_all (connections_of [] commands) t.records
    pub reported :
        t.derived.report
        ≡ some (
            if is_closed t.listening
            then register_switch_socket_result report local_endpoint time_stamps
            else report)

  closing : (is_shut : Bool) → FecCommandSocket → FecCommandSocket
  closing is_shut s = if is_shut then register_report s else s

  closing-IsReported :
      (is_shut : Bool) (time_stamps : SocketTimes) (records : List (ℕ × List ℕ))
      → let s = closing is_shut (record (logged time_stamps) {
        all_connections = listen_all (connections_of [] commands) records;
      }) in
        (s.all_connections ≡ listen_all (connections_of [] commands) records)
        × (s.report
            ≡ some (
                if is_shut
                then register_switch_socket_result report local_endpoint time_stamps
                else report))
  unfolding closing register_report with_report
  closing-IsReported true time_stamps records = (refl, refl)
  closing-IsReported false time_stamps records = (refl, refl)

  IsRecorded-IsReported :
      (time_stamps : SocketTimes) (t : SpecialSocket FecCommandSocket)
      → IsRecorded derived (logged time_stamps) t
      → IsReported time_stamps t
  unfolding derived closing
  IsRecorded-IsReported time_stamps t r =
      let shut = is_closed t.listening in
      let e = r.derived ∙ ap (closing shut) (handled-eq (logged time_stamps) t.records) in
      let c = closing-IsReported shut time_stamps t.records in
      record {
        all_connections = ap (λ (d : FecCommandSocket). d.all_connections) e ∙ c.0;
        reported = ap (λ (d : FecCommandSocket). d.report) e ∙ c.1;
      }

  -- A time stamp that is logged in time.
  log-IsRecorded :
      (time_stamps : SocketTimes) (port : List ℕ) (stat : FecSwitchStat)
      (t : SpecialSocket FecCommandSocket)
      → is_closed t.listening ≡ false
      → IsRecorded derived (logged time_stamps) t
      → IsRecorded derived
          (logged (time_stamps ++ (port, stat) ∷ []))
          (session_step (action_sent port stat) t)
  unfolding session_step log_time_stamps
  log-IsRecorded time_stamps port stat t not_shut r =
      let r' = subst (λ b. IsRecordedIf derived (logged time_stamps) b t) not_shut r in
      subst
        (λ b.
          IsRecordedIf derived (logged (time_stamps ++ (port, stat) ∷ [])) b
            (session_step (action_sent port stat) t))
        (sym not_shut)
        (record {
          derived =
              ap (λ (s : FecCommandSocket). log_time_stamps s port stat)
                (r'.derived ∙ handled-eq (logged time_stamps) t.records)
              ∙ sym (handled-eq (logged (time_stamps ++ (port, stat) ∷ [])) t.records);
          n_records = r'.n_records;
          n_bytes = r'.n_bytes;
          is_open = r'.is_open;
        })

  -- What was reported stays, and a time stamp that is logged later is not reported.
  module _ (time_stamps : SocketTimes) where
    kept-IsReported :
        (s t : SpecialSocket FecCommandSocket)
        → s.listening ≡ closed
        → IsKeptClosed derived s t
        → IsReported time_stamps s
        → IsReported time_stamps t
    kept-IsReported s t h k i = record {
      all_connections =
          ap (λ (d : FecCommandSocket). d.all_connections) k.derived
          ∙ i.all_connections
          ∙ ap (listen_all (connections_of [] commands)) (sym k.records);
      reported =
          ap (λ (d : FecCommandSocket). d.report) k.derived
          ∙ i.reported
          ∙ ap
              (λ l. some (
                if is_closed l
                then register_switch_socket_result report local_endpoint time_stamps
                else report))
              (h ∙ sym k.listening);
    }

    late-IsReported :
        (port : List ℕ) (stat : FecSwitchStat) (t : SpecialSocket FecCommandSocket)
        → IsReported time_stamps t
        → IsReported time_stamps (session_step (action_sent port stat) t)
    unfolding session_step log_time_stamps
    late-IsReported port stat t i = record {
      all_connections = i.all_connections;
      reported = i.reported;
    }

    closed-IsReported :
        (es : List SessionEvent) (t : SpecialSocket FecCommandSocket)
        → t.listening ≡ closed
        → IsReported time_stamps t
        → IsReported time_stamps (run_session es t)
    unfolding run_session session_step
    closed-IsReported [] t h i = i
    closed-IsReported (socket_event e ∷ es) t h i =
        let k = step-IsKeptClosed derived t h e in
        closed-IsReported es (step derived e t) k.listening
          (kept-IsReported t (step derived e t) h k i)
    closed-IsReported (action_sent port stat ∷ es) t h i =
        closed-IsReported es (session_step (action_sent port stat) t) h
          (late-IsReported port stat t i)

  run_session_from :
      (es : List SessionEvent) (time_stamps : SocketTimes) (t : SpecialSocket FecCommandSocket)
      → IsRecorded derived (logged time_stamps) t
      → IsReported (time_stamps ++ sent_in_time es t) (run_session es t)
  unfolding run_session session_step
  run_session_from [] time_stamps t r =
      rw (append-nil time_stamps) (IsRecorded-IsReported time_stamps t r)
  run_session_from (socket_event e ∷ es) time_stamps t r =
      run_session_from es time_stamps (step derived e t)
        (step-IsRecorded derived (logged time_stamps) e t r)
  run_session_from (action_sent port stat ∷ es) time_stamps t r =
      let next = session_step (action_sent port stat) t in
      elim (Bool-cases (is_closed t.listening)) [
        | inl shut ↦
            rw (shut, append-nil time_stamps)
              (closed-IsReported time_stamps es next (is_closed-closed t.listening shut)
                (late-IsReported time_stamps port stat t (IsRecorded-IsReported time_stamps t r)))
        | inr not_shut ↦ rw not_shut (
            subst (λ ts. IsReported ts (run_session es next))
              (append_assoc time_stamps ((port, stat) ∷ []) (sent_in_time es next))
              (run_session_from es (time_stamps ++ (port, stat) ∷ []) next
                (log-IsRecorded time_stamps port stat t not_shut r)))
      ]

  -- However the events of a socket that begins with these commands and the ends of their sending
  -- follow one another, the connections are those that the handled messages leave, in their order,
  -- and an error would name no endpoint exactly if the socket is finished. If the socket was closed,
  -- the report has one entry more, under the local endpoint, with the time stamps of the commands
  -- that were sent before the closing, in the order in which their sending ended; until then it is as
  -- it was, and a command whose sending ends later is in no report.
  pub run_session-register_report :
      (es : List SessionEvent) (s : SpecialSocket FecCommandSocket)
      → IsRecorded derived launched s
      → IsReported (sent_in_time es s) (run_session es s)
        × ((print_error (run_session es s).derived ≡ [])
            ↔ (is_finished (run_session es s).derived ≡ true))
  unfolding print_error is_finished
  run_session-register_report es s i = (
    run_session_from es [] s (subst (λ first. IsRecorded derived first s) launched-eq i),
    waiting_responses_iff (run_session es s).derived.all_connections,
  )

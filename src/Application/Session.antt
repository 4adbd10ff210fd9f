-- ===== src/Application/Session.antt =====
-- backend/srs_control.cpp with backend/srs/Application.cpp: whole runs of the program.
use mathlib.Core.List.{append-nil, append_assoc}
use srs_control.Base.Expected.{value}
use srs_control.Base.{
  ℕ, ◌≡◌, refl, ap, Bool-cases, inl, inr, ◌∙◌, Bool, true, false, List, [], ◌∷◌, ◌++◌, map, some,
  if◌then◌else◌,
}
use srs_control.Application.{
  FutureStatus, returns, undefined, Event, port_opened, port_cancelled, workflow_started,
  workflow_stopped, monitor_stopped, work_guard_reset, threads_joined, System, App, emit,
  call_workflow, sent, switch_with, read_port, read_ports, read_data, switch_on, switch_fecs,
  with_workflow, without_workflow, run_action, exit_and_switch_off, wait_for_switch_off,
  destroy_members, join_threads, all,
}
use srs_control.Application.Switching.{
  stoppers, off_error, is_error, is_ready, waited, waited_undefined, call_workflow-emit,
  exit_and_switch_off_lem,
}
use srs_control.Connections.Command.{starter, stopper}
use srs_control.Converters.Zpp.{Zpp}

module _ (sys : System) where
  -- The ports that can be bound, in their order.
  abbrev pub free_ports : List ℕ → List ℕ
  free_ports [] = []
  free_ports (p ∷ ps) = if sys.is_free p then p ∷ free_ports ps else free_ports ps

  opened :
      (a : App) (ports : List ℕ)
      → read_ports sys a ports
        ≡ emit
            (record a { data_sockets = a.data_sockets ++ free_ports ports })
            (map port_opened (free_ports ports))
  unfolding read_ports read_port emit
  opened a [] = simp append-nil
  opened a (p ∷ ps) = elim (Bool-cases (sys.is_free p)) [
    | inl e ↦ rw e (
        opened (emit (record a { data_sockets = a.data_sockets ++ p ∷ [] }) (port_opened p ∷ [])) ps
        ∙ simp append_assoc)
    | inr e ↦ rw e (opened a ps)
  ]

if_same : (b : Bool) {x y : Bool} → x ≡ false → y ≡ false → (if b then x else y) ≡ false
if_same true p q = p
if_same false p q = q

module _ (sys : System) (zpp : Zpp) where
  -- The events from the way out to the end.
  abbrev pub way_out : App → List Event
  way_out a =
      monitor_stopped
      ∷ (stoppers sys zpp (is_ready a.switch_on_future) a
          ++ (map port_cancelled a.data_sockets
              ++ workflow_stopped ∷ work_guard_reset ∷ threads_joined ∷ []))

  regroup :
      (xs : List Event) (x : Event) (ys zs : List Event) (u v w : Event)
      → ((xs ++ (x ∷ (ys ++ (zs ++ u ∷ [])))) ++ v ∷ []) ++ w ∷ []
        ≡ xs ++ (x ∷ (ys ++ (zs ++ u ∷ v ∷ w ∷ [])))
  regroup xs x ys zs u v w = simp append_assoc

  regroup_all :
      (xs : List Event) (x : Event) (ys zs ws : List Event)
      → (((xs ++ x ∷ []) ++ ys) ++ zs) ++ ws ≡ xs ++ (x ∷ (ys ++ (zs ++ ws)))
  regroup_all xs x ys zs ws = simp append_assoc

  with_workflow_lem :
      (a : App)
      → a.has_workflow_handler ≡ true
      → is_error a.switch_on_future ≡ false
      → off_error sys zpp (is_ready a.switch_on_future) a ≡ false
      → (b : App) × (with_workflow sys zpp a ≡ returns b) × (b.events ≡ a.events ++ way_out a)
  unfolding with_workflow wait_for_switch_off destroy_members emit join_threads
  with_workflow_lem a w e o =
      let (c, runs, events, off) = exit_and_switch_off_lem sys zpp a w e in
      let (r, got, _) = waited c.switch_off_future (off ∙ o) in
      (
        join_threads (emit (destroy_members c) (work_guard_reset ∷ [])),
        rw (runs, got) refl,
        rw events (
            regroup a.events monitor_stopped (stoppers sys zpp (is_ready a.switch_on_future) a)
              (map port_cancelled a.data_sockets) workflow_stopped work_guard_reset threads_joined),
      )

  switch_on-eq :
      (a : App) (status : FutureStatus)
      → sys.control_socket starter ≡ value status
      → switch_on sys zpp a ≡ record (emit a (sent sys zpp starter a.remote_fec_endpoints)) {
        switch_on_future = value (some status);
      }
  unfolding switch_on switch_fecs switch_with
  switch_on-eq a status on = rw on refl

  -- A run with all actions, in which the control socket can be bound, ends, and does the following in
  -- this order, whatever the wait for the front ends reports: it starts the workflow, opens the data
  -- ports that are free, sends a starter to every front end, stops the monitor, sends a stopper to
  -- every front end if the wait for the starters ends in time, cancels every data port that it opened,
  -- stops the workflow, and ends the threads.
  pub run_all_lem :
      (a : App) (status : FutureStatus)
      → a.has_workflow_handler ≡ true
      → a.data_sockets ≡ []
      → sys.control_socket starter ≡ value status
      → is_error a.switch_off_future ≡ false
      → is_error (sys.control_socket stopper) ≡ false
      → (b : App) × (run_action sys zpp all a ≡ returns b)
        × (b.events
            ≡ a.events
              ++ (workflow_started
                  ∷ (map port_opened (free_ports sys a.config.fec_data_receive_ports)
                      ++ (sent sys zpp starter a.remote_fec_endpoints
                          ++ (monitor_stopped
                              ∷ ((if is_ready (value (some status))
                                    then sent sys zpp stopper a.remote_fec_endpoints
                                    else [])
                                  ++ (map port_cancelled
                                        (free_ports sys a.config.fec_data_receive_ports)
                                      ++ workflow_stopped ∷ work_guard_reset ∷ threads_joined
                                        ∷ [])))))))
  unfolding run_action switch_on switch_fecs switch_with read_data emit
  run_all_lem a status w none_open on e off =
      let started = emit a (workflow_started ∷ []) in
      let ports = free_ports sys a.config.fec_data_receive_ports in
      let reading =
        emit (record started { data_sockets = started.data_sockets ++ ports })
          (map port_opened ports) in
      let on_air = record (emit reading (sent sys zpp starter a.remote_fec_endpoints)) {
        switch_on_future = value (some status);
      } in
      let step =
        ap (switch_on sys zpp) (opened sys started a.config.fec_data_receive_ports)
        ∙ switch_on-eq reading status on in
      let (c, runs, events) =
        with_workflow_lem on_air w refl (if_same (is_ready (value (some status))) off e) in
      (
        c,
        rw (call_workflow-emit a workflow_started w, step) runs,
        events
            ∙ regroup_all a.events workflow_started (map port_opened ports)
                (sent sys zpp starter a.remote_fec_endpoints) (way_out on_air)
            ∙ rw (off, none_open) refl,
      )

  -- Where the handler runs late, the workflow handler is gone when it is called.
  without_workflow_undefined :
      (a : App) → sys.handler_is_early ≡ false → without_workflow sys zpp a ≡ undefined
  unfolding without_workflow wait_for_switch_off destroy_members emit exit_and_switch_off
      call_workflow
  without_workflow_undefined a late = elim (Bool-cases (is_error a.switch_off_future)) [
    | inl e ↦ rw (late, waited_undefined a.switch_off_future e) refl
    | inr e ↦ let (r, got, _) = waited a.switch_off_future e in rw (late, got) refl
  ]

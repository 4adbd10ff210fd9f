-- ===== src/Application/Answered.antt =====
-- backend/srs/Application.cpp with the command socket and the emulated front ends: switching the
-- front ends comes to its end when they answer.
use srs_control.Base.{
  ℕ, ◌+◌, ◌-◌, ◌≤◌, ◌≡◌, refl, ◌∙◌, Bool, true, false, List, [], ◌∷◌, ◌==◌, arith,
}
use srs_control.Application.{System, fec_connection, register_all}
use srs_control.Connections.Command.{
  CommandBase, Switch, check_response, create_switch, send_message_from, communicate,
  set_write_response_msg,
}
use srs_control.Connections.CommandSocket.{
  AllConnections, register_send_action, response_handler, listen_all, is_finished,
}
use srs_control.Connections.CommandSocket.Counts.{
  one, count_all, connections_at, IsHandled, response_handler_lem, count_all-register_send_action,
}
use srs_control.Connections.CommandSocket.Loop.{
  n_at, refuses, IsMap, IsMap-register_send_action, IsMap-response_handler,
  n_at-register_send_action, n_at-response_handler, n_at-is_finished,
}
use srs_control.Converters.Zpp.{Zpp}
use srs_control.Emulators.Fec.{Emulator, listen}
use srs_control.Emulators.Fec.Answers.{listen-send_message_from}

abbrev pub times : (endpoint : ℕ) → List ℕ → ℕ
times e [] = 0
times e (x ∷ xs) = one (x == e) + times e xs

-- A handled response leaves no connection that was not there.
refusing_left :
    (q : CommandBase → Bool) (response : List ℕ) (there : List CommandBase)
    (all_connections : AllConnections) (r : Bool × AllConnections)
    → IsHandled response there all_connections r
    → count_all q all_connections ≡ 0
    → count_all q r.1 ≡ 0
refusing_left q response there all_connections (true, left) (c, ok, n) h =
    let (_, m) = n q in omega arith
refusing_left q response there all_connections (false, left) (same, _) h = rw same h

module _ (sys : System) (zpp : Zpp) (s : Switch) where
  -- A response that every connection of the command accepts.
  abbrev Accepted : List ℕ → Type 0
  Accepted r = (e : ℕ) → check_response (create_switch zpp s e) r ≡ true

  -- What holds of the connections while only this command waits for responses.
  abbrev IsWaiting : AllConnections → Type 0
  IsWaiting all_connections =
      IsMap all_connections
      × ((r : List ℕ) → Accepted r → count_all (refuses r) all_connections ≡ 0)

  refuses-fec_connection :
      (r : List ℕ) (e : ℕ) → Accepted r → refuses r (fec_connection sys zpp s e) ≡ false
  unfolding fec_connection send_message_from communicate check_response
  refuses-fec_connection r e a = rw (a e) refl

  remote_endpoint-fec_connection : (e : ℕ) → (fec_connection sys zpp s e).remote_endpoint ≡ e
  unfolding fec_connection send_message_from communicate create_switch set_write_response_msg
  remote_endpoint-fec_connection e = refl

  register_all-IsWaiting :
      (all_connections : AllConnections) (es : List ℕ)
      → IsWaiting all_connections
      → IsWaiting (register_all sys zpp s all_connections es)
  unfolding register_all
  register_all-IsWaiting all_connections [] w = w
  register_all-IsWaiting all_connections (e ∷ es) (m, w) =
      register_all-IsWaiting (register_send_action all_connections (fec_connection sys zpp s e)) es
        (
          IsMap-register_send_action all_connections (fec_connection sys zpp s e) m,
          λ r a.
              count_all-register_send_action (refuses r) all_connections
                (fec_connection sys zpp s e)
              ∙ rw (refuses-fec_connection r e a, w r a) (omega arith),
        )

  n_at-register_all :
      (k : ℕ) (all_connections : AllConnections) (es : List ℕ)
      → n_at k (register_all sys zpp s all_connections es) ≡ n_at k all_connections + times k es
  unfolding register_all
  n_at-register_all k all_connections [] = omega arith
  n_at-register_all k all_connections (e ∷ es) =
      n_at-register_all k (register_send_action all_connections (fec_connection sys zpp s e)) es
      ∙ rw
          (
            n_at-register_send_action k all_connections (fec_connection sys zpp s e),
            remote_endpoint-fec_connection e,
          )
          (omega arith)

  -- The answers of front ends, in the order in which they arrive.
  abbrev pub answers : (non_stop : Bool) → (ℕ → Emulator) → List ℕ → List (ℕ × List ℕ)
  answers non_stop fecs [] = []
  answers non_stop fecs (e ∷ es) =
      (e, (listen zpp non_stop (fecs e) (fec_connection sys zpp s e).write_msg_buffer).0)
      ∷ answers non_stop fecs es

  answer-Accepted :
      (non_stop : Bool) (fecs : ℕ → Emulator) (e : ℕ)
      → Accepted (listen zpp non_stop (fecs e) (fec_connection sys zpp s e).write_msg_buffer).0
  unfolding fec_connection
  answer-Accepted non_stop fecs e k =
      (listen-send_message_from zpp s k non_stop (fecs e) (create_switch zpp s e)).0

  n_at-listen_all :
      (k : ℕ) (non_stop : Bool) (fecs : ℕ → Emulator) (all_connections : AllConnections)
      (es : List ℕ)
      → IsWaiting all_connections
      → IsMap (listen_all all_connections (answers non_stop fecs es))
        × (n_at k (listen_all all_connections (answers non_stop fecs es))
            ≡ n_at k all_connections - times k es)
  unfolding listen_all
  n_at-listen_all k non_stop fecs all_connections [] w = (w.0, omega arith)
  n_at-listen_all k non_stop fecs all_connections (e ∷ es) (m, w) =
      let answer = (listen zpp non_stop (fecs e) (fec_connection sys zpp s e).write_msg_buffer).0 in
      let accepted = answer-Accepted non_stop fecs e in
      let (is_map, n) =
        n_at-listen_all k non_stop fecs (response_handler all_connections e answer).1 es (
          IsMap-response_handler all_connections e answer m,
          λ r a.
              refusing_left (refuses r) answer (connections_at e all_connections) all_connections
                (response_handler all_connections e answer)
                (response_handler_lem answer all_connections e) (w r a),
        ) in
      (
        is_map,
        n ∙ rw (n_at-response_handler k all_connections e answer (w answer accepted)) (omega arith),
      )

  -- The socket that sends a command to front ends, and gets the answer of each as often as the command
  -- was sent to it, or more often, is finished, in whatever order the answers arrive and whatever the
  -- front ends did before.
  pub listen_all-is_finished :
      (non_stop : Bool) (fecs : ℕ → Emulator) (endpoints answering : List ℕ)
      → ((k : ℕ) → times k endpoints ≤ times k answering)
      → is_finished
          (listen_all (register_all sys zpp s [] endpoints) (answers non_stop fecs answering))
        ≡ true
  listen_all-is_finished non_stop fecs endpoints answering enough =
      let waiting = register_all-IsWaiting [] endpoints (tt, λ r a. refl) in
      let all_connections = register_all sys zpp s [] endpoints in
      n_at-is_finished (listen_all all_connections (answers non_stop fecs answering))
        (n_at-listen_all 0 non_stop fecs all_connections answering waiting).0
        (λ k.
          (n_at-listen_all k non_stop fecs all_connections answering waiting).1
          ∙ rw (n_at-register_all k [] endpoints) (omega (arith, enough k)))

-- ===== src/Emulators/Fec/Tests.antt =====
-- Runs of backend/srs/emulators/FECEmulator.cpp and backend/srs/connections/FecSwitchSocket.cpp.
use srs_control.Base.{ℕ, ◌≡◌, refl, true, false, List, [], ◌∷◌}
use srs_control.Utils.Text.{eq_bytes}
use srs_control.Converters.Archive.{archive, put_bytes}
use srs_control.Base.Digits.{le_bytes}
use srs_control.Connections.Command.{
  starter, stopper, create_switch, send_message_from, check_response, set_write_response_msg,
  encode_write_msg, serialize, put_entries, response_data, empty,
}
use srs_control.Connections.CommandSocket.{
  AllConnections, deregister_connection, response_handler, replaced, passed, remove_once_if, kept,
}
use srs_control.Connections.CommandSocket.Counts.{IsHandled, connections_at, response_handler_lem}
use srs_control.Emulators.Fec.{Emulator, listen}
use srs_control.Emulators.Fec.Answers.{IsAnswered, listen-send_message_from}

abbrev switched_off : Emulator
switched_off = record { is_switched_off = true; is_listening = true; frame_counter = 7 }

abbrev registered : AllConnections
registered = (3, create_switch archive starter 3 ∷ create_switch archive stopper 3 ∷ []) ∷ []

abbrev response : List ℕ
response = (create_switch archive stopper 3).write_msg_response_buffer

recognized : (response_handler registered 3 response).0 ≡ true
unfolding response_handler replaced deregister_connection remove_once_if check_response empty
    create_switch set_write_response_msg encode_write_msg serialize put_bytes le_bytes eq_bytes
    put_entries response_data kept
recognized = refl

unknown : (response_handler registered 4 response).0 ≡ false
unfolding response_handler passed
unknown = refl

listen-send_message_from_example : IsAnswered archive stopper 3 false switched_off (
    listen archive false switched_off
      (send_message_from archive stopper (create_switch archive stopper 3)).write_msg_buffer)
listen-send_message_from_example =
    listen-send_message_from archive stopper 3 false switched_off (create_switch archive stopper 3)

response_handler_lem_example :
    IsHandled response
      (connections_at 3 registered)
      registered
      (response_handler registered 3 response)
response_handler_lem_example = response_handler_lem response registered 3

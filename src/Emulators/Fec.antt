-- ===== src/Emulators/Fec.antt =====
-- backend/srs/emulators/FECEmulator.cpp and .hpp: what the emulator takes a message for, what it
-- answers, and how it is switched. The data that it sends is left out.
pub mod Suffixes
pub mod Answers
pub mod Tests
use srs_control.Base.{
  ℕ, ◌-◌, Bool, true, false, not, List, [], ◌∷◌, ◌&&◌, length, drop, leb, if◌then◌else◌,
}
use srs_control.Converters.Zpp.{Zpp}
use srs_control.Utils.Text.{ends_with}
use srs_control.Connections.Command.{
  CommandBase, Switch, starter, stopper, serialize, put_entries, get_send_suffix, create_switch,
}

pub data ReceiveType : Type 0 where
  invalid acq_on acq_off : ReceiveType

unfoldable pub find_suffix : List (List ℕ × ReceiveType) → (msg : List ℕ) → ReceiveType
find_suffix [] msg = invalid
find_suffix ((suffix, t) ∷ rest) msg =
    let others = find_suffix rest msg in if ends_with msg suffix then t else others

pub record Emulator : Type 0 where
  pub is_switched_off : Bool
  pub is_listening : Bool
  pub frame_counter : ℕ

unfoldable pub do_if_acq_on : Emulator → Emulator
do_if_acq_on e = record e { is_switched_off = false; frame_counter = 0 }

unfoldable pub do_if_acq_off : Emulator → Emulator
do_if_acq_off e = record e { is_switched_off = true }

-- The branches of `listen_coro`, which returns after the message `acq_off` unless it goes on.
unfoldable pub switched : (non_stop : Bool) → ReceiveType → Emulator → Emulator
switched non_stop invalid e = e
switched non_stop acq_on e = do_if_acq_on e
switched non_stop acq_off e =
    let off = do_if_acq_off e in if not non_stop then record off { is_listening = false } else off

module _ (zpp : Zpp) where
  unfoldable pub get_msg_from_receive_type : ReceiveType → List ℕ
  get_msg_from_receive_type invalid = []
  get_msg_from_receive_type acq_on = (create_switch zpp starter 0).write_msg_response_buffer
  get_msg_from_receive_type acq_off = (create_switch zpp stopper 0).write_msg_response_buffer

  unfoldable pub get_send_msg_from_receive_type : ReceiveType → List ℕ
  get_send_msg_from_receive_type invalid = []
  get_send_msg_from_receive_type acq_on = serialize [] (put_entries zpp (get_send_suffix starter))
  get_send_msg_from_receive_type acq_off = serialize [] (put_entries zpp (get_send_suffix stopper))

  -- The map goes through its keys in their order, `acq_off` first.
  unfoldable pub msg_map : List (List ℕ × ReceiveType)
  msg_map =
      (get_send_msg_from_receive_type acq_off, acq_off)
      ∷ (get_send_msg_from_receive_type acq_on, acq_on)
      ∷ []

  unfoldable pub check_receive_msg_type : (msg : List ℕ) → ReceiveType
  check_receive_msg_type msg = find_suffix msg_map msg

  -- One message received: what is sent back, and the emulator afterwards.
  unfoldable pub listen : (non_stop : Bool) → Emulator → (msg : List ℕ) → List ℕ × Emulator
  listen non_stop e msg =
      let result = check_receive_msg_type msg in
      (get_msg_from_receive_type result, switched non_stop result e)

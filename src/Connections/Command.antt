-- ===== src/Connections/Command.antt =====
-- backend/srs/connections/ConnectionBase.cpp and .hpp, Connections.cpp and .hpp, and
-- backend/srs/converters/SerializableBuffer.hpp: the messages of the commands and the responses that
-- they expect. A byte is its unsigned value, and what is sent and when is left out.
use srs_control.Base.{ℕ, Bool, true, false, List, [], ◌∷◌, ◌++◌, if◌then◌else◌}
use srs_control.Converters.Zpp.{Zpp}
use srs_control.Utils.Text.{eq_bytes}

-- `SerializableMsgBuffer`: the bytes written to it, one call of `serialize` behind the other.
abbrev pub MsgBuffer : Type 0
MsgBuffer = List ℕ

unfoldable pub serialize : MsgBuffer → List ℕ → MsgBuffer
serialize buffer bytes = buffer ++ bytes

unfoldable pub empty : MsgBuffer → Bool
empty [] = true
empty (_ ∷ _) = false

abbrev pub zero_uint16_padding : ℕ
zero_uint16_padding = 0

abbrev pub write_command_bits : ℕ
write_command_bits = 170

abbrev pub default_type_bits : ℕ
default_type_bits = 170

abbrev pub command_length_bits : ℕ
command_length_bits = 65535

abbrev pub null_address : ℕ
null_address = 15

abbrev pub init_count_value : ℕ
init_count_value = 2147483648

pub record CommandBase : Type 0 where
  pub counter : ℕ
  pub remote_endpoint : ℕ
  pub write_msg_buffer : MsgBuffer
  pub write_msg_response_buffer : MsgBuffer

module _ (zpp : Zpp) where
  -- A span of 32-bit entries, written without its size.
  unfoldable pub put_entries : List ℕ → List ℕ
  put_entries [] = []
  put_entries (x ∷ xs) = zpp.put_uint 4 x ++ put_entries xs

  unfoldable pub encode_write_msg :
      MsgBuffer → (counter : ℕ) (data_entries : List ℕ) (address : ℕ) → MsgBuffer
  encode_write_msg buffer counter data_entries address =
      serialize
        (serialize buffer (
          zpp.put_uint 4 counter
          ++ zpp.put_uint 2 zero_uint16_padding
          ++ zpp.put_uint 2 address
          ++ zpp.put_uint 1 write_command_bits
          ++ zpp.put_uint 1 default_type_bits
          ++ zpp.put_uint 2 command_length_bits))
        (put_entries data_entries)

  unfoldable pub set_write_response_msg : CommandBase → List ℕ → (address : ℕ) → CommandBase
  set_write_response_msg c msg address = record c {
    write_msg_response_buffer = encode_write_msg c.write_msg_response_buffer 0 msg address;
  }

  -- `communicate`, the message that is then sent from the socket.
  unfoldable pub communicate : CommandBase → List ℕ → (address : ℕ) → CommandBase
  communicate c data_entries address = record c {
    write_msg_buffer = encode_write_msg c.write_msg_buffer c.counter data_entries address;
  }

unfoldable pub check_response : CommandBase → (response_msg : List ℕ) → Bool
check_response c response_msg =
    if empty c.write_msg_response_buffer
    then true
    else eq_bytes response_msg c.write_msg_response_buffer

abbrev pub create : (remote_endpoint : ℕ) → CommandBase
create remote_endpoint = record {
  counter = init_count_value;
  remote_endpoint = remote_endpoint;
  write_msg_buffer = [];
  write_msg_response_buffer = [];
}

-- The two commands: `Starter` and `Stopper`.
pub data Switch : Type 0 where
  starter stopper : Switch

unfoldable pub get_send_suffix : Switch → List ℕ
get_send_suffix starter = 0 ∷ 15 ∷ 1 ∷ []
get_send_suffix stopper = 0 ∷ 15 ∷ 0 ∷ []

unfoldable pub response_data : Switch → List ℕ
response_data starter = 0 ∷ 0 ∷ 1 ∷ []
response_data stopper = 0 ∷ 0 ∷ 0 ∷ []

unfoldable pub create_switch : Zpp → Switch → (remote_endpoint : ℕ) → CommandBase
create_switch zpp s remote_endpoint =
    set_write_response_msg zpp (create remote_endpoint) (response_data s) null_address

-- The command with the message that it sends.
unfoldable pub send_message_from : Zpp → Switch → CommandBase → CommandBase
send_message_from zpp s c = communicate zpp c (get_send_suffix s) null_address

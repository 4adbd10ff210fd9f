-- ===== src/Emulators/Fec/Answers.antt =====
-- backend/srs/emulators/FECEmulator.cpp with backend/srs/connections/Connections.cpp: the commands of
-- the program and the emulator understand each other.
use srs_control.Base.{
  ℕ, ◌≡◌, refl, sym, ap, subst, ◌∙◌, Bool, true, false, List, [], ◌∷◌, ◌++◌, ◌&&◌, length,
  length-append, drop, drop-append, arith, ◌<◌, if◌then◌else◌, Bool-cases, not, ◌||◌, inl, inr,
}
use srs_control.Converters.Zpp.{Zpp}
use srs_control.Utils.Text.{eq_bytes, eq_bytes_refl, eq_bytes→eq}
use srs_control.Connections.Command.{
  CommandBase, Switch, starter, stopper, serialize, put_entries, get_send_suffix, create_switch,
  check_response, encode_write_msg, send_message_from, communicate, null_address, empty,
  set_write_response_msg, response_data, zero_uint16_padding, write_command_bits, default_type_bits,
  command_length_bits,
}
use srs_control.Emulators.Fec.{
  acq_on, acq_off, Emulator, do_if_acq_on, do_if_acq_off, switched, get_msg_from_receive_type,
  listen,
}
use srs_control.Emulators.Fec.Suffixes.{
  entries, length-entries, entries_differ, check_starter, check_stopper,
}

not_empty : (xs : List ℕ) → 0 < length xs → empty xs ≡ false
unfolding empty
not_empty [] h = grind arith
not_empty (x ∷ xs) _ = refl

and_true : (b : Bool) → b ≡ (b && true)
and_true true = refl
and_true false = refl

and_false : (b : Bool) → false ≡ (b && false)
and_false true = refl
and_false false = refl

switched-acq_off :
    (non_stop : Bool) (e : Emulator)
    → ((switched non_stop acq_off e).is_switched_off ≡ true)
      × ((switched non_stop acq_off e).is_listening ≡ (e.is_listening && non_stop))
unfolding switched do_if_acq_off
switched-acq_off true e = (refl, and_true e.is_listening)
switched-acq_off false e = (refl, and_false e.is_listening)

module _ (zpp : Zpp) where
  -- What comes before the data of the command's message, an earlier message included.
  front : CommandBase → List ℕ
  front c =
      c.write_msg_buffer
      ++ (zpp.put_uint 4 c.counter
          ++ zpp.put_uint 2 zero_uint16_padding
          ++ zpp.put_uint 2 null_address
          ++ zpp.put_uint 1 write_command_bits
          ++ zpp.put_uint 1 default_type_bits
          ++ zpp.put_uint 2 command_length_bits)

  -- What comes before the data of a response.
  response_header : List ℕ
  response_header =
      []
      ++ (zpp.put_uint 4 0
          ++ zpp.put_uint 2 zero_uint16_padding
          ++ zpp.put_uint 2 null_address
          ++ zpp.put_uint 1 write_command_bits
          ++ zpp.put_uint 1 default_type_bits
          ++ zpp.put_uint 2 command_length_bits)

  response_not_empty : (x : ℕ) → empty (response_header ++ entries zpp 0 x) ≡ false
  response_not_empty x =
      not_empty (response_header ++ entries zpp 0 x)
        (rw (length-append response_header (entries zpp 0 x), length-entries zpp 0 x) (omega arith))

  responses_differ :
      (x y : ℕ)
      → (entries zpp 0 x ≡ entries zpp 0 y → true ≡ false)
      → eq_bytes (response_header ++ entries zpp 0 x) (response_header ++ entries zpp 0 y) ≡ false
  responses_differ x y differ =
      let n = length response_header in
      elim (Bool-cases
        (eq_bytes (response_header ++ entries zpp 0 x) (response_header ++ entries zpp 0 y))) [
          | inl e ↦
              e
              ∙ differ (
                  sym (drop-append response_header (entries zpp 0 x) n refl)
                  ∙ ap (drop n) (
                      eq_bytes→eq (response_header ++ entries zpp 0 x)
                        (response_header ++ entries zpp 0 y) e)
                  ∙ drop-append response_header (entries zpp 0 y) n refl)
          | inr e ↦ e
        ]

  abbrev pub other : Switch → Switch
  other starter = stopper
  other stopper = starter

  abbrev pub is_stopper : Switch → Bool
  is_stopper starter = false
  is_stopper stopper = true

  -- The answer is the response to the command, not to the other one, and the emulator is switched.
  abbrev pub IsAnswered :
      Switch → (endpoint : ℕ) (non_stop : Bool) → Emulator → List ℕ × Emulator → Type 0
  IsAnswered s endpoint non_stop e answered =
      (check_response (create_switch zpp s endpoint) answered.0 ≡ true)
      × (check_response (create_switch zpp (other s) endpoint) answered.0 ≡ false)
      × (answered.1.is_switched_off ≡ is_stopper s)
      × (answered.1.is_listening ≡ (e.is_listening && (not (is_stopper s) || non_stop)))

  accepted :
      (x y : ℕ)
      → (entries zpp 0 x ≡ entries zpp 0 y → true ≡ false)
      → (if empty (response_header ++ entries zpp 0 y)
          then true
          else eq_bytes (response_header ++ entries zpp 0 x) (response_header ++ entries zpp 0 y))
        ≡ false
  accepted x y differ = rw (response_not_empty y, responses_differ x y differ) refl

  same :
      (x : ℕ)
      → (if empty (response_header ++ entries zpp 0 x)
          then true
          else eq_bytes (response_header ++ entries zpp 0 x) (response_header ++ entries zpp 0 x))
        ≡ true
  same x = rw (response_not_empty x, eq_bytes_refl (response_header ++ entries zpp 0 x)) refl

  IsAnswered-starter :
      (endpoint : ℕ) (non_stop : Bool) (e : Emulator)
      → IsAnswered starter endpoint non_stop e
          (get_msg_from_receive_type zpp acq_on, switched non_stop acq_on e)
  unfolding encode_write_msg serialize create_switch entries response_header set_write_response_msg
      put_entries check_response get_msg_from_receive_type switched do_if_acq_on response_data
  IsAnswered-starter endpoint non_stop e =
      (same 1, accepted 1 0 (entries_differ zpp 0 (omega arith)), refl, and_true e.is_listening)

  IsAnswered-stopper :
      (endpoint : ℕ) (non_stop : Bool) (e : Emulator)
      → IsAnswered stopper endpoint non_stop e
          (get_msg_from_receive_type zpp acq_off, switched non_stop acq_off e)
  unfolding encode_write_msg serialize create_switch entries response_header set_write_response_msg
      put_entries check_response get_msg_from_receive_type response_data
  IsAnswered-stopper endpoint non_stop e =
      let off = switched-acq_off non_stop e in
      (same 0, accepted 0 1 (λ h. entries_differ zpp 0 (omega arith) (sym h)), off.0, off.1)

  -- Whatever was sent before, the emulator answers each command of the program with the response that the
  -- command expects and that the other command does not accept. After a starter it is switched on and
  -- listens as before, and after a stopper it is switched off and listens on only without a stop.
  pub listen-send_message_from :
      (s : Switch) (endpoint : ℕ) (non_stop : Bool) (e : Emulator) (c : CommandBase)
      → IsAnswered s endpoint non_stop e
          (listen zpp non_stop e (send_message_from zpp s c).write_msg_buffer)
  unfolding listen send_message_from communicate encode_write_msg serialize put_entries
      get_send_suffix entries front
  listen-send_message_from starter endpoint non_stop e c =
      subst
        (λ t.
          IsAnswered starter endpoint non_stop e
            (get_msg_from_receive_type zpp t, switched non_stop t e))
        (sym (check_starter zpp (front c))) (IsAnswered-starter endpoint non_stop e)
  listen-send_message_from stopper endpoint non_stop e c =
      subst
        (λ t.
          IsAnswered stopper endpoint non_stop e
            (get_msg_from_receive_type zpp t, switched non_stop t e))
        (sym (check_stopper zpp (front c))) (IsAnswered-stopper endpoint non_stop e)

-- ===== src/Emulators/Fec/Suffixes.antt =====
-- backend/srs/emulators/FECEmulator.cpp: the ends of the messages by which `check_receive_msg_type`
-- tells the commands apart.
use srs_control.Base.{
  ℕ, ◌≡◌, refl, sym, ap, ◌∙◌, Bool, true, false, List, [], ◌++◌, length, length-append, arith, ◌==◌,
  ◌<◌, ◌^◌, none, Bool-cases, inl, inr, some, Option,
}
use srs_control.Converters.Zpp.{Zpp}
use srs_control.Utils.Text.{ends_with, ends_with-append, ends_with-append_eq}
use srs_control.Connections.Command.{serialize, put_entries, get_send_suffix}
use srs_control.Emulators.Fec.{
  acq_on, acq_off, find_suffix, get_send_msg_from_receive_type, msg_map, check_receive_msg_type,
}

module _ (zpp : Zpp) where
  unfoldable pub entries : (middle last : ℕ) → List ℕ
  entries m x = zpp.put_uint 4 0 ++ (zpp.put_uint 4 m ++ (zpp.put_uint 4 x ++ []))

  pub length-entries : (m x : ℕ) → length (entries m x) ≡ 12
  unfolding entries
  length-entries m x =
      rw
        (
          length-append (zpp.put_uint 4 0) (zpp.put_uint 4 m ++ (zpp.put_uint 4 x ++ [])),
          length-append (zpp.put_uint 4 m) (zpp.put_uint 4 x ++ []),
          length-append (zpp.put_uint 4 x) [],
          zpp.length-put_uint 4 0,
          zpp.length-put_uint 4 m,
          zpp.length-put_uint 4 x,
        )
        (omega arith)

  next : Option (ℕ × List ℕ) → Option (ℕ × List ℕ)
  next none = none
  next (some (_, rest)) = zpp.get_uint 4 rest

  is_one : Option (ℕ × List ℕ) → Bool
  is_one none = false
  is_one (some (x, _)) = x == 1

  third : List ℕ → Bool
  third bs = is_one (next (next (zpp.get_uint 4 bs)))

  third-entries : (m x : ℕ) → m < 256 ^ 4 → x < 256 ^ 4 → third (entries m x) ≡ (x == 1)
  unfolding third entries next is_one
  third-entries m x k h =
      rw
        (
          zpp.get_uint-put_uint 4 0 (zpp.put_uint 4 m ++ (zpp.put_uint 4 x ++ [])) (omega arith),
          zpp.get_uint-put_uint 4 m (zpp.put_uint 4 x ++ []) k,
          zpp.get_uint-put_uint 4 x [] h,
        )
        refl

  -- The message of the starter does not end the way the stopper's does.
  pub entries_differ : (m : ℕ) → m < 256 ^ 4 → entries m 1 ≡ entries m 0 → true ≡ false
  entries_differ m k e =
      sym (third-entries m 1 k (omega arith)) ∙ ap third e ∙ third-entries m 0 k (omega arith)

  ends_with_other : (front : List ℕ) → ends_with (front ++ entries 15 1) (entries 15 0) ≡ false
  ends_with_other front = elim (Bool-cases (ends_with (front ++ entries 15 1) (entries 15 0))) [
    | inl e ↦
        e
        ∙ entries_differ 15 (omega arith) (
            ends_with-append_eq front (entries 15 1) (entries 15 0)
              (length-entries 15 1 ∙ sym (length-entries 15 0)) e)
    | inr e ↦ e
  ]

  pub check_starter : (front : List ℕ) → check_receive_msg_type zpp (front ++ entries 15 1) ≡ acq_on
  unfolding check_receive_msg_type msg_map find_suffix get_send_msg_from_receive_type serialize
      put_entries get_send_suffix entries
  check_starter front = rw (ends_with_other front, ends_with-append front (entries 15 1)) refl

  pub check_stopper :
      (front : List ℕ) → check_receive_msg_type zpp (front ++ entries 15 0) ≡ acq_off
  unfolding check_receive_msg_type msg_map find_suffix get_send_msg_from_receive_type serialize
      put_entries get_send_suffix entries
  check_stopper front = rw (ends_with-append front (entries 15 0)) refl

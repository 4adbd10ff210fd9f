-- ===== src/Application/Switching.antt =====
-- backend/srs/Application.cpp: what `exit_and_switch_off` does, on every branch.
use mathlib.Core.List.{append-nil, append_assoc}
use srs_control.Base.Expected.{Expected, value, unexpected}
use srs_control.Base.{
  ◌≡◌, ◌↔◌, refl, ◌∙◌, sym, Bool-cases, inl, inr, Bool, true, false, List, [], ◌∷◌, ◌++◌, map, none,
  some, if◌then◌else◌,
}
use srs_control.Application.{
  FutureStatus, ready, timeout, deferred, ErrorCode, SwitchFutureType, returns, undefined, Event,
  port_cancelled, workflow_stopped, monitor_stopped, System, App, emit, wait_for_switch_action,
  call_workflow, sent, switch_with, switch_fecs, switch_off, invalid_argument, switch_off_if,
  wait_for_reading_finish, exit_and_switch_off,
}
use srs_control.Connections.Command.{stopper}
use srs_control.Converters.Zpp.{Zpp}

abbrev pub is_error {ℓ κ} : {E : Type ℓ} {A : Type κ} → Expected E A → Bool
is_error (value _) = false
is_error (unexpected _) = true

abbrev pub is_ready : SwitchFutureType → Bool
is_ready (value (some ready)) = true
is_ready (value (some timeout)) = false
is_ready (value (some deferred)) = false
is_ready (value none) = false
is_ready (unexpected _) = false

abbrev pub is_on : Expected ErrorCode FutureStatus → Bool
is_on (value ready) = true
is_on (value timeout) = false
is_on (value deferred) = false
is_on (unexpected _) = false

pub waited :
    (f : SwitchFutureType)
    → is_error f ≡ false
    → (r : Expected ErrorCode FutureStatus) × (wait_for_switch_action f ≡ returns r)
      × (is_ready f ≡ is_on r)
unfolding wait_for_switch_action
waited (unexpected e) h = cc
waited (value none) h = (unexpected invalid_argument, refl, refl)
waited (value (some ready)) h = (value ready, refl, refl)
waited (value (some timeout)) h = (value timeout, refl, refl)
waited (value (some deferred)) h = (value deferred, refl, refl)

pub call_workflow-emit :
    (a : App) (e : Event)
    → a.has_workflow_handler ≡ true
    → call_workflow a e ≡ returns (emit a (e ∷ []))
unfolding call_workflow
call_workflow-emit a e h = rw h refl

pub waited_undefined :
    (f : SwitchFutureType) → is_error f ≡ true → wait_for_switch_action f ≡ undefined
unfolding wait_for_switch_action
waited_undefined (unexpected e) h = refl
waited_undefined (value f) h = cc

module _ (sys : System) (zpp : Zpp) where
  -- The commands that are sent on the way out.
  abbrev pub stoppers : (is_on : Bool) → App → List Event
  stoppers is_on a =
      if is_on
      then (if is_error (sys.control_socket stopper)
          then []
          else sent sys zpp stopper a.remote_fec_endpoints)
      else []

  -- Whether the future for switching off then holds an error.
  abbrev pub off_error : (is_on : Bool) → App → Bool
  off_error is_on a =
      if is_on then is_error (sys.control_socket stopper) else is_error a.switch_off_future

  -- What the events become, the rest of what the exit reads being kept.
  abbrev IsEmitted : App → App → List Event → (is_off_error : Bool) → Type 0
  IsEmitted a b es is_off_error =
      (b.events ≡ a.events ++ es)
      × (b.data_sockets ≡ a.data_sockets)
      × (b.has_workflow_handler ≡ a.has_workflow_handler)
      × (is_error b.switch_off_future ≡ is_off_error)

  abbrev off_with : Expected ErrorCode FutureStatus → App → App
  off_with r a =
      let (future, a') = switch_with sys zpp stopper r a in record a' { switch_off_future = future }

  off_with-IsEmitted :
      (r : Expected ErrorCode FutureStatus) (a : App)
      → IsEmitted a
          (off_with r a)
          (if is_error r then [] else sent sys zpp stopper a.remote_fec_endpoints)
          (is_error r)
  unfolding switch_with emit
  off_with-IsEmitted (unexpected e) a = (sym (append-nil _), refl, refl, refl)
  off_with-IsEmitted (value status) a = (refl, refl, refl, refl)

  switch_off_if-IsEmitted :
      (a : App) (r : Expected ErrorCode FutureStatus)
      → IsEmitted a (switch_off_if sys zpp a r) (stoppers (is_on r) a) (off_error (is_on r) a)
  unfolding switch_off_if switch_off switch_fecs
  switch_off_if-IsEmitted a (value ready) = off_with-IsEmitted (sys.control_socket stopper) a
  switch_off_if-IsEmitted a (value timeout) = (sym (append-nil _), refl, refl, refl)
  switch_off_if-IsEmitted a (value deferred) = (sym (append-nil _), refl, refl, refl)
  switch_off_if-IsEmitted a (unexpected _) = (sym (append-nil _), refl, refl, refl)

  ended :
      (a b : App) (es : List Event) (x : Bool)
      → a.has_workflow_handler ≡ true
      → IsEmitted a b es x
      → (c : App) × (call_workflow (wait_for_reading_finish sys zpp b) workflow_stopped ≡ returns c)
        × (c.events
            ≡ a.events ++ (es ++ (map port_cancelled a.data_sockets ++ workflow_stopped ∷ [])))
        × (is_error c.switch_off_future ≡ x)
  unfolding wait_for_reading_finish emit
  ended a b es x h (events, sockets, handler, off) = (
    _,
    call_workflow-emit _ workflow_stopped (handler ∙ h),
    rw (events, sockets) (simp append_assoc),
    off,
  )

  pub exit_and_switch_off_lem :
      (a : App)
      → a.has_workflow_handler ≡ true
      → is_error a.switch_on_future ≡ false
      → (b : App) × (exit_and_switch_off sys zpp a ≡ returns b)
        × (b.events
            ≡ a.events
              ++ (monitor_stopped
                  ∷ (stoppers (is_ready a.switch_on_future) a
                      ++ (map port_cancelled a.data_sockets ++ workflow_stopped ∷ []))))
        × (is_error b.switch_off_future ≡ off_error (is_ready a.switch_on_future) a)
  unfolding exit_and_switch_off emit
  exit_and_switch_off_lem a w e =
      let (r, got, on) = waited a.switch_on_future e in
      let (c, runs, events, off) =
        ended (emit a (monitor_stopped ∷ []))
          (switch_off_if sys zpp (emit a (monitor_stopped ∷ [])) r) (stoppers (is_on r) a)
          (off_error (is_on r) a) w (switch_off_if-IsEmitted (emit a (monitor_stopped ∷ [])) r) in
      (
        c,
        rw (call_workflow-emit a monitor_stopped w, got) runs,
        rw on (events ∙ append_assoc a.events (monitor_stopped ∷ []) _),
        rw on off,
      )

  exit_undefined :
      (a : App)
      → a.has_workflow_handler ≡ true
      → is_error a.switch_on_future ≡ true
      → exit_and_switch_off sys zpp a ≡ undefined
  unfolding exit_and_switch_off emit
  exit_undefined a w e =
      rw (call_workflow-emit a monitor_stopped w, waited_undefined a.switch_on_future e) refl

  never : {A : Type 0} (x : A) → ¬ (returns x ≡ undefined)
  never x e = cc

  -- With a workflow handler the way out is undefined exactly if the control socket could not be bound
  -- when the front ends were switched on.
  pub exit_and_switch_off_undefined_iff :
      (a : App)
      → a.has_workflow_handler ≡ true
      → (exit_and_switch_off sys zpp a ≡ undefined) ↔ (is_error a.switch_on_future ≡ true)
  exit_and_switch_off_undefined_iff a w = (there, exit_undefined a w)
    where
      there : exit_and_switch_off sys zpp a ≡ undefined → is_error a.switch_on_future ≡ true
      there u = elim (Bool-cases (is_error a.switch_on_future)) [
        | inl e ↦ e
        | inr e ↦ absurd (never _ (sym (exit_and_switch_off_lem a w e).1 ∙ u))
      ]

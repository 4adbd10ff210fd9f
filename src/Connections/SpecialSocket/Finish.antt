-- ===== src/Connections/SpecialSocket/Finish.antt =====
-- backend/srs/connections/SpecialSocketBase.hpp: that the listening ends after it was cancelled.
use srs_control.Base.{ℕ, ◌≡◌, refl, ap, ◌∙◌, sym, subst, Bool, true, List, [], ◌∷◌, ◌++◌, some}
use srs_control.Connections.SpecialSocket.{
  SpecialSocketDerived, Listen, spawned, receiving, aborting, closed, thrown, Cancel, waiting,
  released, ended, armed, SpecialSocket, Event, listen_begins, cancel_begins, watch_begins,
  received, receive_failed, cancel_completes, watch_completes, handle, close, throw, on_received,
  on_receive_failed, on_cancel_completes, on_watch_completes, cancelled_listen, cancelled_wait,
  cancel_timer, step, run, ready, wait_for_listen_finish, has_ended,
}
use srs_control.Connections.SpecialSocket.Phases.{IsCancelled, IsEnd, IsPhase, IsAt, run-IsAt}

-- A received message, or an error, whatever it is.
abbrev pub IsCompletion : Event → Type 0
IsCompletion (received _ _ _) = Unit
IsCompletion receive_failed = Unit
IsCompletion _ = ⊥

module _ {S : Type 0} (d : SpecialSocketDerived S) where
  run-append :
      (xs ys : List Event) (s : SpecialSocket S) → run d (xs ++ ys) s ≡ run d ys (run d xs s)
  unfolding run
  run-append [] ys s = refl
  run-append (e ∷ xs) ys s = run-append xs ys (step d e s)

  cancelled_listen-IsCancelled : (l : Listen) → IsCancelled (cancelled_listen d l)
  unfolding cancelled_listen
  cancelled_listen-IsCancelled spawned = tt
  cancelled_listen-IsCancelled receiving = tt
  cancelled_listen-IsCancelled aborting = tt
  cancelled_listen-IsCancelled closed = tt
  cancelled_listen-IsCancelled thrown = tt

  -- The three phases: the timer was cancelled, the wait for it is over, and the listening is over.
  IsTimerCancelled : SpecialSocket S → Type 0
  IsTimerCancelled = IsAt d Unit IsCancelled

  IsListenCancelled : SpecialSocket S → Type 0
  IsListenCancelled = IsAt d ⊥ IsCancelled

  IsFinished : SpecialSocket S → Type 0
  IsFinished = IsAt d ⊥ IsEnd

  run-IsTimerCancelled :
      (es : List Event) (s : SpecialSocket S) → IsTimerCancelled s → IsTimerCancelled (run d es s)
  unfolding IsTimerCancelled
  run-IsTimerCancelled =
      run-IsAt d Unit IsCancelled tt tt (λ h. absurd h) (λ _ l. cancelled_listen-IsCancelled l)

  run-IsListenCancelled :
      (es : List Event) (s : SpecialSocket S) → IsListenCancelled s → IsListenCancelled (run d es s)
  unfolding IsListenCancelled
  run-IsListenCancelled = run-IsAt d ⊥ IsCancelled tt tt (λ h. absurd h) (λ h l. absurd h)

  run-IsFinished : (es : List Event) (s : SpecialSocket S) → IsFinished s → IsFinished (run d es s)
  unfolding IsFinished
  run-IsFinished = run-IsAt d ⊥ IsEnd tt tt (λ h. absurd h) (λ h l. absurd h)

  timer_cancelled :
      (s : SpecialSocket S) (b : Bool)
      → s.valid ≡ true
      → s.cancelling ≡ waiting
      → s.watching ≡ armed b
      → IsTimerCancelled (step d watch_completes s)
  unfolding IsTimerCancelled step on_watch_completes cancel_timer
  timer_cancelled s b v c w = rw (w) (rw (c) (tt, v))

  listen_cancelled :
      (c : Cancel) (s : SpecialSocket S)
      → s.cancelling ≡ c
      → IsTimerCancelled s
      → IsListenCancelled (on_cancel_completes d c s)
  unfolding IsTimerCancelled IsListenCancelled on_cancel_completes
  listen_cancelled spawned s e i = absurd (subst (IsPhase d Unit IsCancelled s.listening) e i.0)
  listen_cancelled waiting s e i = absurd (subst (IsPhase d Unit IsCancelled s.listening) e i.0)
  listen_cancelled released s e i = (cancelled_listen-IsCancelled s.listening, i.1)
  listen_cancelled ended s e i = (
    subst (IsPhase d ⊥ IsCancelled s.listening) (sym e)
        (subst (IsPhase d Unit IsCancelled s.listening) e i.0),
    i.1,
  )

  IsPhase-IsEnd :
      (l k : Listen) (c : Cancel)
      → IsEnd k
      → IsPhase d ⊥ IsCancelled l c
      → IsPhase d ⊥ IsEnd k c × IsPhase d ⊥ IsEnd k (cancelled_wait d c)
  unfolding cancelled_wait
  IsPhase-IsEnd l k spawned h p = absurd p
  IsPhase-IsEnd l k waiting h p = absurd p
  IsPhase-IsEnd l k released h p = absurd p
  IsPhase-IsEnd l k ended h p = (h, h)

  not_receiving : (l : Listen) (c : Cancel) → IsPhase d ⊥ IsCancelled l c → IsCancelled l
  not_receiving l spawned p = absurd p
  not_receiving l waiting p = absurd p
  not_receiving l released p = absurd p
  not_receiving l ended p = p

  module _ (s : SpecialSocket S) (i : IsListenCancelled s) where
    closed_listening : (l : Listen) → s.listening ≡ l → IsEnd l → IsFinished s
    unfolding IsListenCancelled IsFinished
    closed_listening l e h =
        ((IsPhase-IsEnd s.listening s.listening s.cancelling (subst IsEnd (sym e) h) i.0).0, i.1)

    none_receiving : (l : Listen) → s.listening ≡ l → IsCancelled l
    unfolding IsListenCancelled
    none_receiving l e = subst IsCancelled e (not_receiving s.listening s.cancelling i.0)

    received-IsFinished :
        (l : Listen) (p : ℕ) (r : List ℕ) (t : ℕ)
        → s.listening ≡ l
        → IsFinished (on_received d l s p r t)
    unfolding IsListenCancelled IsFinished on_received handle throw
    received-IsFinished spawned p r t e = absurd (none_receiving spawned e)
    received-IsFinished receiving p r t e = absurd (none_receiving receiving e)
    received-IsFinished aborting p r t e =
        ((IsPhase-IsEnd s.listening thrown s.cancelling tt i.0).1, i.1)
    received-IsFinished closed p r t e = closed_listening closed e tt
    received-IsFinished thrown p r t e = closed_listening thrown e tt

    receive_failed-IsFinished :
        (l : Listen) → s.listening ≡ l → IsFinished (on_receive_failed d l s)
    unfolding IsListenCancelled IsFinished on_receive_failed close
    receive_failed-IsFinished spawned e = absurd (none_receiving spawned e)
    receive_failed-IsFinished receiving e = absurd (none_receiving receiving e)
    receive_failed-IsFinished aborting e =
        ((IsPhase-IsEnd s.listening closed s.cancelling tt i.0).1, i.1)
    receive_failed-IsFinished closed e = closed_listening closed e tt
    receive_failed-IsFinished thrown e = closed_listening thrown e tt

  completion-IsFinished :
      (e : Event) (s : SpecialSocket S)
      → IsCompletion e
      → IsListenCancelled s
      → IsFinished (step d e s)
  unfolding step
  completion-IsFinished (received p r t) s h i = received-IsFinished s i s.listening p r t refl
  completion-IsFinished receive_failed s h i = receive_failed-IsFinished s i s.listening refl
  completion-IsFinished listen_begins s h i = absurd h
  completion-IsFinished cancel_begins s h i = absurd h
  completion-IsFinished watch_begins s h i = absurd h
  completion-IsFinished cancel_completes s h i = absurd h
  completion-IsFinished watch_completes s h i = absurd h

  ended_phase : (l : Listen) (c : Cancel) → IsPhase d ⊥ IsEnd l c → has_ended d l c ≡ true
  ended_phase l spawned p = absurd p
  ended_phase l waiting p = absurd p
  ended_phase l released p = absurd p
  ended_phase spawned ended p = absurd p
  ended_phase receiving ended p = absurd p
  ended_phase aborting ended p = absurd p
  ended_phase closed ended p = refl
  ended_phase thrown ended p = refl

  finished-ready : (s : SpecialSocket S) → IsFinished s → wait_for_listen_finish d s ≡ some ready
  unfolding IsFinished wait_for_listen_finish
  finished-ready s i = rw (i.1, ended_phase s.listening s.cancelling i.0) refl

  -- Once the time that `cancel_listen_after` was given is over, the listening ends, whatever messages
  -- still come and whatever else goes on: when the cancelled wait has completed, and after it one
  -- receiving, by a message or by an error, the future of the listening is ready and stays so.
  pub wait_for_listen_finish-ready :
      (s : SpecialSocket S) (b : Bool) (es₁ es₂ es₃ : List Event) (e : Event)
      → s.valid ≡ true
      → s.cancelling ≡ waiting
      → s.watching ≡ armed b
      → IsCompletion e
      → wait_for_listen_finish d
          (run d (watch_completes ∷ (es₁ ++ (cancel_completes ∷ (es₂ ++ (e ∷ es₃))))) s)
        ≡ some ready
  unfolding run step
  wait_for_listen_finish-ready s b es₁ es₂ es₃ e v c w h =
      let s₁ = run d es₁ (step d watch_completes s) in
      let i₁ = run-IsTimerCancelled es₁ (step d watch_completes s) (timer_cancelled s b v c w) in
      let s₂ = run d es₂ (on_cancel_completes d s₁.cancelling s₁) in
      let i₂ =
        run-IsListenCancelled es₂ (on_cancel_completes d s₁.cancelling s₁)
          (listen_cancelled s₁.cancelling s₁ refl i₁) in
      let i₃ = run-IsFinished es₃ (step d e s₂) (completion-IsFinished e s₂ h i₂) in
      ap (wait_for_listen_finish d) (
        run-append es₁ (cancel_completes ∷ (es₂ ++ (e ∷ es₃))) (step d watch_completes s)
        ∙ run-append es₂ (e ∷ es₃) (on_cancel_completes d s₁.cancelling s₁))
      ∙ finished-ready (run d es₃ (step d e s₂)) i₃

-- ===== src/Connections/SpecialSocket/Phases.antt =====
-- backend/srs/connections/SpecialSocketBase.hpp: what stays so once the timer of a socket was
-- cancelled, however its coroutines go on.
use srs_control.Base.{ℕ, ◌≡◌, refl, subst, true, List, [], ◌∷◌}
use srs_control.Connections.SpecialSocket.{
  SpecialSocketDerived, Listen, spawned, receiving, aborting, closed, thrown, Cancel, waiting,
  released, ended, Watch, absent, armed, done, SpecialSocket, Event, listen_begins, cancel_begins,
  watch_begins, received, receive_failed, cancel_completes, watch_completes, handle, close, throw,
  on_received, on_receive_failed, on_listen_begins, on_cancel_begins, on_cancel_completes,
  on_watch_begins, on_watch_completes, cancelled_listen, cancelled_wait, cancel_timer, step, run,
}

-- The receiving was cancelled, and it has ended.
abbrev pub IsCancelled : Listen → Type 0
IsCancelled spawned = ⊥
IsCancelled receiving = ⊥
IsCancelled aborting = Unit
IsCancelled closed = Unit
IsCancelled thrown = Unit

abbrev pub IsEnd : Listen → Type 0
IsEnd spawned = ⊥
IsEnd receiving = ⊥
IsEnd aborting = ⊥
IsEnd closed = Unit
IsEnd thrown = Unit

module _ {S : Type 0} (d : SpecialSocketDerived S) where
  -- The timer is cancelled: the wait for it is to complete, which `Early` allows, or has completed,
  -- and then the listening is late.
  module _ (Early : Type 0) (IsLate : Listen → Type 0) where
    abbrev pub IsPhase : Listen → Cancel → Type 0
    IsPhase l spawned = ⊥
    IsPhase l waiting = ⊥
    IsPhase l released = Early
    IsPhase l ended = IsLate l

    abbrev pub IsAt : SpecialSocket S → Type 0
    IsAt s = IsPhase s.listening s.cancelling × (s.valid ≡ true)

    module _ (late_closed : IsLate closed) (late_thrown : IsLate thrown)
        (not_spawned : IsLate spawned → IsLate receiving)
        (late_released : Early → (l : Listen) → IsLate (cancelled_listen d l)) where
      IsPhase-cancelled_wait :
          (l k : Listen) (c : Cancel) → IsLate k → IsPhase l c → IsPhase k (cancelled_wait d c)
      unfolding cancelled_wait
      IsPhase-cancelled_wait l k spawned h p = absurd p
      IsPhase-cancelled_wait l k waiting h p = absurd p
      IsPhase-cancelled_wait l k released h p = p
      IsPhase-cancelled_wait l k ended h p = h

      IsPhase-cancel_timer : (l : Listen) (c : Cancel) → IsPhase l c → IsPhase l (cancel_timer d c)
      unfolding cancel_timer
      IsPhase-cancel_timer l spawned p = absurd p
      IsPhase-cancel_timer l waiting p = absurd p
      IsPhase-cancel_timer l released p = p
      IsPhase-cancel_timer l ended p = p

      IsPhase-receiving : (c : Cancel) → IsPhase spawned c → IsPhase receiving c
      IsPhase-receiving spawned p = absurd p
      IsPhase-receiving waiting p = absurd p
      IsPhase-receiving released p = p
      IsPhase-receiving ended p = not_spawned p

      module _ (s : SpecialSocket S) (i : IsAt s) where
        closed-IsAt : IsAt (close d s)
        unfolding close
        closed-IsAt = (IsPhase-cancelled_wait s.listening closed s.cancelling late_closed i.0, i.1)

        received-IsAt : (l : Listen) (p : ℕ) (r : List ℕ) (t : ℕ) → IsAt (on_received d l s p r t)
        unfolding on_received handle throw
        received-IsAt spawned p r t = i
        received-IsAt receiving p r t = i
        received-IsAt aborting p r t =
            (IsPhase-cancelled_wait s.listening thrown s.cancelling late_thrown i.0, i.1)
        received-IsAt closed p r t = i
        received-IsAt thrown p r t = i

        receive_failed-IsAt : (l : Listen) → IsAt (on_receive_failed d l s)
        unfolding on_receive_failed
        receive_failed-IsAt spawned = i
        receive_failed-IsAt receiving = closed-IsAt
        receive_failed-IsAt aborting = closed-IsAt
        receive_failed-IsAt closed = i
        receive_failed-IsAt thrown = i

        listen_begins-IsAt : (l : Listen) → s.listening ≡ l → IsAt (on_listen_begins d l s)
        unfolding on_listen_begins
        listen_begins-IsAt spawned e =
            (IsPhase-receiving s.cancelling (subst (λ k. IsPhase k s.cancelling) e i.0), i.1)
        listen_begins-IsAt receiving e = i
        listen_begins-IsAt aborting e = i
        listen_begins-IsAt closed e = i
        listen_begins-IsAt thrown e = i

        cancel_begins-IsAt : (c : Cancel) → s.cancelling ≡ c → IsAt (on_cancel_begins d c s)
        unfolding on_cancel_begins
        cancel_begins-IsAt spawned e = absurd (subst (λ k. IsPhase s.listening k) e i.0)
        cancel_begins-IsAt waiting e = i
        cancel_begins-IsAt released e = i
        cancel_begins-IsAt ended e = i

        cancel_completes-IsAt : (c : Cancel) → s.cancelling ≡ c → IsAt (on_cancel_completes d c s)
        unfolding on_cancel_completes
        cancel_completes-IsAt spawned e = i
        cancel_completes-IsAt waiting e = i
        cancel_completes-IsAt released e =
            (late_released (subst (λ k. IsPhase s.listening k) e i.0) s.listening, i.1)
        cancel_completes-IsAt ended e = i

        watch_begins-IsAt : (w : Watch) → IsAt (on_watch_begins d w s)
        unfolding on_watch_begins
        watch_begins-IsAt absent = i
        watch_begins-IsAt spawned = i
        watch_begins-IsAt (armed b) = i
        watch_begins-IsAt done = i

        watch_completes-IsAt : (w : Watch) → IsAt (on_watch_completes d w s)
        unfolding on_watch_completes
        watch_completes-IsAt absent = i
        watch_completes-IsAt spawned = i
        watch_completes-IsAt (armed b) = (IsPhase-cancel_timer s.listening s.cancelling i.0, i.1)
        watch_completes-IsAt done = i

      step-IsAt : (e : Event) (s : SpecialSocket S) → IsAt s → IsAt (step d e s)
      unfolding step
      step-IsAt listen_begins s i = listen_begins-IsAt s i s.listening refl
      step-IsAt cancel_begins s i = cancel_begins-IsAt s i s.cancelling refl
      step-IsAt watch_begins s i = watch_begins-IsAt s i s.watching
      step-IsAt (received p r t) s i = received-IsAt s i s.listening p r t
      step-IsAt receive_failed s i = receive_failed-IsAt s i s.listening
      step-IsAt cancel_completes s i = cancel_completes-IsAt s i s.cancelling refl
      step-IsAt watch_completes s i = watch_completes-IsAt s i s.watching

      pub run-IsAt : (es : List Event) (s : SpecialSocket S) → IsAt s → IsAt (run d es s)
      unfolding run
      run-IsAt [] s i = i
      run-IsAt (e ∷ es) s i = run-IsAt es (step d e s) (step-IsAt e s i)

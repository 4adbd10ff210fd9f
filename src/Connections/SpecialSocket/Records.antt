-- ===== src/Connections/SpecialSocket/Records.antt =====
-- backend/srs/connections/SpecialSocketBase.hpp: what a socket has handled and counted, in whatever
-- order its coroutines go on.
use srs_control.Base.{
  ℕ, ◌+◌, ◌%◌, ◌^◌, ◌≡◌, refl, ap, ◌∙◌, sym, subst, Bool, true, false, not, List, [], ◌∷◌, ◌++◌,
  length, arith, ◌&&◌, if◌then◌else◌, length-append,
}
use srs_control.Connections.SpecialSocket.{
  SpecialSocketDerived, Listen, spawned, receiving, aborting, closed, thrown, Cancel, waiting,
  released, ended, Watch, absent, armed, done, SpecialSocket, Event, listen_begins, cancel_begins,
  watch_begins, received, receive_failed, cancel_completes, watch_completes, handle, close, throw,
  on_received, on_receive_failed, on_listen_begins, on_cancel_begins, on_cancel_completes,
  on_watch_begins, on_watch_completes, cancelled_listen, cancel_timer, step, run,
}

abbrev pub n_bytes_of : List (ℕ × List ℕ) → ℕ
n_bytes_of [] = 0
n_bytes_of ((_, response) ∷ records) = length response + n_bytes_of records

n_bytes_of-append :
    (xs ys : List (ℕ × List ℕ)) → n_bytes_of (xs ++ ys) ≡ n_bytes_of xs + n_bytes_of ys
n_bytes_of-append [] ys = omega arith
n_bytes_of-append ((_, response) ∷ xs) ys = omega (arith, n_bytes_of-append xs ys)

abbrev pub is_closed : Listen → Bool
is_closed closed = true
is_closed _ = false

module _ {S : Type 0} (d : SpecialSocketDerived S) where
  abbrev pub handled : S → List (ℕ × List ℕ) → S
  handled s [] = s
  handled s ((endpoint, response) ∷ records) =
      handled (d.response_handler s endpoint response) records

  handled-append :
      (s : S) (xs ys : List (ℕ × List ℕ)) → handled s (xs ++ ys) ≡ handled (handled s xs) ys
  handled-append s [] ys = refl
  handled-append s ((endpoint, response) ∷ xs) ys =
      handled-append (d.response_handler s endpoint response) xs ys

module _ {S : Type 0} (d : SpecialSocketDerived S) (first : S) where
  -- The derived class before and after it was told of the closing.
  abbrev derived_if : (is_shut : Bool) → S → S
  derived_if is_shut s = if is_shut then d.before_socket_close s else s

  pub record IsRecordedIf (is_shut : Bool) (s : SpecialSocket S) : Type 0 where
    pub derived : s.derived ≡ derived_if is_shut (handled d first s.records)
    pub n_records : s.n_records ≡ length s.records % 2 ^ 64
    pub n_bytes : s.n_bytes ≡ n_bytes_of s.records % 2 ^ 64
    pub is_open : s.is_open ≡ not is_shut

  abbrev pub IsRecorded : SpecialSocket S → Type 0
  IsRecorded s = IsRecordedIf (is_closed s.listening) s

  module _ (s : SpecialSocket S) where
    handle-IsRecordedIf :
        (endpoint : ℕ) (response : List ℕ) (time_ns : ℕ)
        → IsRecordedIf false s
        → IsRecordedIf false (handle d s endpoint response time_ns)
    unfolding handle
    handle-IsRecordedIf endpoint response time_ns i =
        let one = (endpoint, response) ∷ [] in
        record {
          derived =
              ap (λ x. d.response_handler x endpoint response) i.derived
              ∙ sym (handled-append d first s.records one);
          n_records = omega (arith, i.n_records, length-append s.records one);
          n_bytes = omega (arith, i.n_bytes, n_bytes_of-append s.records one);
          is_open = i.is_open;
        }

    close-IsRecorded : IsRecordedIf false s → IsRecorded (close d s)
    unfolding close
    close-IsRecorded i = record {
      derived = ap d.before_socket_close i.derived;
      n_records = i.n_records;
      n_bytes = i.n_bytes;
      is_open = refl;
    }

    throw-IsRecorded : IsRecordedIf false s → IsRecorded (throw d s)
    unfolding throw
    throw-IsRecorded i = record {
      derived = i.derived;
      n_records = i.n_records;
      n_bytes = i.n_bytes;
      is_open = i.is_open;
    }

  module _ (s : SpecialSocket S) where
    -- A change of the coroutines alone.
    moved :
        (is_shut : Bool) (l : Listen) (c : Cancel) (w : Watch) (n : ℕ)
        → IsRecordedIf is_shut s
        → IsRecordedIf is_shut
            (record s { listening = l; cancelling = c; watching = w; n_errors = n })
    moved is_shut l c w n i = record {
      derived = i.derived;
      n_records = i.n_records;
      n_bytes = i.n_bytes;
      is_open = i.is_open;
    }

    at_listening :
        (l : Listen) (t : SpecialSocket S)
        → t.listening ≡ l
        → IsRecordedIf (is_closed l) t
        → IsRecorded t
    at_listening l t e i = subst (λ k. IsRecordedIf (is_closed k) t) (sym e) i

    on_received-IsRecorded :
        (l : Listen) (endpoint : ℕ) (response : List ℕ) (time_ns : ℕ)
        → s.listening ≡ l
        → IsRecordedIf (is_closed l) s
        → IsRecorded (on_received d l s endpoint response time_ns)
    unfolding on_received handle
    on_received-IsRecorded spawned p r t e i = at_listening spawned s e i
    on_received-IsRecorded receiving p r t e i =
        at_listening receiving (handle d s p r t) e (handle-IsRecordedIf s p r t i)
    on_received-IsRecorded aborting p r t e i =
        throw-IsRecorded (handle d s p r t) (handle-IsRecordedIf s p r t i)
    on_received-IsRecorded closed p r t e i = at_listening closed s e i
    on_received-IsRecorded thrown p r t e i = at_listening thrown s e i

    on_receive_failed-IsRecorded :
        (l : Listen)
        → s.listening ≡ l
        → IsRecordedIf (is_closed l) s
        → IsRecorded (on_receive_failed d l s)
    unfolding on_receive_failed
    on_receive_failed-IsRecorded spawned e i = at_listening spawned s e i
    on_receive_failed-IsRecorded receiving e i = close-IsRecorded s i
    on_receive_failed-IsRecorded aborting e i = close-IsRecorded s i
    on_receive_failed-IsRecorded closed e i = at_listening closed s e i
    on_receive_failed-IsRecorded thrown e i = at_listening thrown s e i

    on_listen_begins-IsRecorded :
        (l : Listen)
        → s.listening ≡ l
        → IsRecordedIf (is_closed l) s
        → IsRecorded (on_listen_begins d l s)
    unfolding on_listen_begins
    on_listen_begins-IsRecorded spawned e i =
        moved false receiving s.cancelling s.watching s.n_errors i
    on_listen_begins-IsRecorded receiving e i = at_listening receiving s e i
    on_listen_begins-IsRecorded aborting e i = at_listening aborting s e i
    on_listen_begins-IsRecorded closed e i = at_listening closed s e i
    on_listen_begins-IsRecorded thrown e i = at_listening thrown s e i

    is_closed-cancelled_listen : (l : Listen) → is_closed (cancelled_listen d l) ≡ is_closed l
    unfolding cancelled_listen
    is_closed-cancelled_listen spawned = refl
    is_closed-cancelled_listen receiving = refl
    is_closed-cancelled_listen aborting = refl
    is_closed-cancelled_listen closed = refl
    is_closed-cancelled_listen thrown = refl

    on_cancel_completes-IsRecorded :
        (c : Cancel) → IsRecorded s → IsRecorded (on_cancel_completes d c s)
    unfolding on_cancel_completes
    on_cancel_completes-IsRecorded spawned i = i
    on_cancel_completes-IsRecorded waiting i = i
    on_cancel_completes-IsRecorded released i =
        let l = cancelled_listen d s.listening in
        subst (λ b. IsRecordedIf b (record s { listening = l; cancelling = ended }))
          (sym (is_closed-cancelled_listen s.listening))
          (moved (is_closed s.listening) l ended s.watching s.n_errors i)
    on_cancel_completes-IsRecorded ended i = i

    on_cancel_begins-IsRecorded : (c : Cancel) → IsRecorded s → IsRecorded (on_cancel_begins d c s)
    unfolding on_cancel_begins
    on_cancel_begins-IsRecorded spawned i =
        moved (is_closed s.listening) s.listening waiting s.watching s.n_errors i
    on_cancel_begins-IsRecorded waiting i = i
    on_cancel_begins-IsRecorded released i = i
    on_cancel_begins-IsRecorded ended i = i

    on_watch_begins-IsRecorded : (w : Watch) → IsRecorded s → IsRecorded (on_watch_begins d w s)
    unfolding on_watch_begins
    on_watch_begins-IsRecorded absent i = i
    on_watch_begins-IsRecorded spawned i =
        moved (is_closed s.listening) s.listening s.cancelling (armed (d.is_finished s.derived))
          s.n_errors i
    on_watch_begins-IsRecorded (armed b) i = i
    on_watch_begins-IsRecorded done i = i

    on_watch_completes-IsRecorded :
        (w : Watch) → IsRecorded s → IsRecorded (on_watch_completes d w s)
    unfolding on_watch_completes
    on_watch_completes-IsRecorded absent i = i
    on_watch_completes-IsRecorded spawned i = i
    on_watch_completes-IsRecorded (armed b) i =
        moved (is_closed s.listening) s.listening (cancel_timer d s.cancelling) done
          (if not b && not (d.is_finished s.derived) then s.n_errors + 1 else s.n_errors) i
    on_watch_completes-IsRecorded done i = i

  pub step-IsRecorded : (e : Event) (s : SpecialSocket S) → IsRecorded s → IsRecorded (step d e s)
  unfolding step
  step-IsRecorded listen_begins s i = on_listen_begins-IsRecorded s s.listening refl i
  step-IsRecorded cancel_begins s i = on_cancel_begins-IsRecorded s s.cancelling i
  step-IsRecorded watch_begins s i = on_watch_begins-IsRecorded s s.watching i
  step-IsRecorded (received p r t) s i = on_received-IsRecorded s s.listening p r t refl i
  step-IsRecorded receive_failed s i = on_receive_failed-IsRecorded s s.listening refl i
  step-IsRecorded cancel_completes s i = on_cancel_completes-IsRecorded s s.cancelling i
  step-IsRecorded watch_completes s i = on_watch_completes-IsRecorded s s.watching i

  -- However the coroutines go on and whatever they receive, a socket in order stays in order: the
  -- derived class has handled the messages one after another and was told of the closing if the
  -- socket was closed, which is open otherwise, and the two counters are those of these messages.
  pub run-IsRecorded :
      (es : List Event) (s : SpecialSocket S) → IsRecorded s → IsRecorded (run d es s)
  unfolding run
  run-IsRecorded [] s i = i
  run-IsRecorded (e ∷ es) s i = run-IsRecorded es (step d e s) (step-IsRecorded e s i)

-- ===== src/Connections/SpecialSocket/Closed.antt =====
-- backend/srs/connections/SpecialSocketBase.hpp: a socket that was closed.
use srs_control.Base.{◌≡◌, refl, ap, ◌∙◌}
use srs_control.Connections.SpecialSocket.{
  SpecialSocketDerived, closed, Cancel, spawned, waiting, released, ended, Watch, absent, armed,
  done, SpecialSocket, Event, listen_begins, cancel_begins, watch_begins, received, receive_failed,
  cancel_completes, watch_completes, on_received, on_receive_failed, on_listen_begins,
  on_cancel_begins, on_cancel_completes, on_watch_begins, on_watch_completes, cancelled_listen,
  step,
}

module _ {S : Type 0} (d : SpecialSocketDerived S) where
  -- The derived class and the messages are the same, and the socket is closed.
  pub record IsKeptClosed (s t : SpecialSocket S) : Type 0 where
    pub derived : t.derived ≡ s.derived
    pub records : t.records ≡ s.records
    pub listening : t.listening ≡ closed

  module _ (s : SpecialSocket S) (h : s.listening ≡ closed) where
    same-IsKeptClosed : (t : SpecialSocket S) → t ≡ s → IsKeptClosed s t
    same-IsKeptClosed t e = record {
      derived = ap (λ (t : SpecialSocket S). t.derived) e;
      records = ap (λ (t : SpecialSocket S). t.records) e;
      listening = ap (λ (t : SpecialSocket S). t.listening) e ∙ h;
    }

    on_cancel_begins-IsKeptClosed : (c : Cancel) → IsKeptClosed s (on_cancel_begins d c s)
    unfolding on_cancel_begins
    on_cancel_begins-IsKeptClosed spawned = record { derived = refl; records = refl; listening = h }
    on_cancel_begins-IsKeptClosed waiting = same-IsKeptClosed s refl
    on_cancel_begins-IsKeptClosed released = same-IsKeptClosed s refl
    on_cancel_begins-IsKeptClosed ended = same-IsKeptClosed s refl

    on_cancel_completes-IsKeptClosed : (c : Cancel) → IsKeptClosed s (on_cancel_completes d c s)
    unfolding on_cancel_completes cancelled_listen
    on_cancel_completes-IsKeptClosed spawned = same-IsKeptClosed s refl
    on_cancel_completes-IsKeptClosed waiting = same-IsKeptClosed s refl
    on_cancel_completes-IsKeptClosed released = record {
      derived = refl;
      records = refl;
      listening = ap (cancelled_listen d) h;
    }
    on_cancel_completes-IsKeptClosed ended = same-IsKeptClosed s refl

    on_watch_begins-IsKeptClosed : (w : Watch) → IsKeptClosed s (on_watch_begins d w s)
    unfolding on_watch_begins
    on_watch_begins-IsKeptClosed absent = same-IsKeptClosed s refl
    on_watch_begins-IsKeptClosed spawned = record { derived = refl; records = refl; listening = h }
    on_watch_begins-IsKeptClosed (armed b) = same-IsKeptClosed s refl
    on_watch_begins-IsKeptClosed done = same-IsKeptClosed s refl

    on_watch_completes-IsKeptClosed : (w : Watch) → IsKeptClosed s (on_watch_completes d w s)
    unfolding on_watch_completes
    on_watch_completes-IsKeptClosed absent = same-IsKeptClosed s refl
    on_watch_completes-IsKeptClosed spawned = same-IsKeptClosed s refl
    on_watch_completes-IsKeptClosed (armed b) = record {
      derived = refl;
      records = refl;
      listening = h;
    }
    on_watch_completes-IsKeptClosed done = same-IsKeptClosed s refl

    pub step-IsKeptClosed : (e : Event) → IsKeptClosed s (step d e s)
    unfolding step on_received on_receive_failed on_listen_begins
    step-IsKeptClosed listen_begins = same-IsKeptClosed _ (ap (λ l. on_listen_begins d l s) h)
    step-IsKeptClosed cancel_begins = on_cancel_begins-IsKeptClosed s.cancelling
    step-IsKeptClosed watch_begins = on_watch_begins-IsKeptClosed s.watching
    step-IsKeptClosed (received p r t) = same-IsKeptClosed _ (ap (λ l. on_received d l s p r t) h)
    step-IsKeptClosed receive_failed = same-IsKeptClosed _ (ap (λ l. on_receive_failed d l s) h)
    step-IsKeptClosed cancel_completes = on_cancel_completes-IsKeptClosed s.cancelling
    step-IsKeptClosed watch_completes = on_watch_completes-IsKeptClosed s.watching

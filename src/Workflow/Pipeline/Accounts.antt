-- ===== src/Workflow/Pipeline/Accounts.antt =====
-- The accounts of the datagrams that backend/srs/connections/DataSocket.cpp reads and
-- backend/srs/workflow/AnalysisHandle.cpp counts, and that the steps of the socket keep them.
use mathlib.Core.Option.{some-ne-none}
use srs_control.Base.{
  ℕ, ◌+◌, ◌<◌, ◌≤◌, ◌≡◌, refl, sym, subst, ap, ◌∙◌, Bool, true, false, List, Option, none, some,
  arith, if◌then◌else◌, length, total, length-replicate,
}
use srs_control.Connections.DataSocket.{DataSocket, restore, begin_response, end_response}
use srs_control.Data.BufferQueue.{BufferQueue, Config, enqueue_empty, wait_valid, give_back}
use srs_control.Data.BufferQueue
use srs_control.Data.ConcurrentQueue.{ConcurrentQueue}
use srs_control.Data.LargeBuffer.{
  LargeBuffer, resize, valid_data, is_empty, fill, moved_from, length-resize, length-fill,
  valid_data-resize,
}
use srs_control.Workflow.AnalysisHandle.{AnalysisHandle}
use srs_control.Workflow.Pipeline.Halves.{
  offered, begin_response-accepted, begin_response-refused, end_response-recycled, end_response-new,
}
use srs_control.Workflow.Pipeline.Queues.{try_enqueue-total}
use srs_control.Workflow.Pipeline.{System, started, after_response, after_restock}

-- The weight of the datagram in a buffer. A buffer without memory is the signal to stop.
abbrev pub carried : (List ℕ → ℕ) → LargeBuffer → ℕ
carried f b = if is_empty b then 0 else f (valid_data b)

abbrev pub carried_bytes : LargeBuffer → ℕ
carried_bytes b = if is_empty b then 0 else b.size_

abbrev pub signal : LargeBuffer → ℕ
signal b = if is_empty b then 1 else 0

module _ (lib : ConcurrentQueue) where
  abbrev pub queued : System lib → List LargeBuffer
  queued s = lib.contents s.handle.buffer_queue.valid_buffer_queue

  -- The accounts, for any weight of a datagram.
  pub record Accounts (f : List ℕ → ℕ) (config : Config) (n_lines : ℕ) (s : System lib)
      : Type 0 where
    pub frames :
        total f s.received ≡ total f s.dropped + total (carried f) (queued s) + total f s.delivered
    pub read_bytes : s.handle.total_read_data_bytes ≡ total length s.received
    pub drop_bytes : s.handle.total_drop_data_bytes ≡ total length s.dropped
    pub frame_counts : s.handle.total_frame_counts ≡ length s.received
    pub bytes :
        s.handle.total_read_data_bytes
        ≡ s.handle.total_drop_data_bytes + total carried_bytes (queued s) + s.total_read_data_bytes
    pub signals :
        total signal (queued s) + s.told_to_stop ≡ (if s.handle.is_stopped then n_lines else 0)
    pub same_lines : s.handle.n_lines ≡ n_lines
    pub same_size : s.socket.buffer_size ≡ config.buffer_size
    pub ready : s.asking ≡ none → config.buffer_size ≤ length s.socket.read_msg_buffer.data_

  size-offered : (s : DataSocket) (datagram : List ℕ) → (offered s datagram).size_ ≡ length datagram
  unfolding resize
  size-offered s datagram = refl

  module _ (f : List ℕ → ℕ) (config : Config) (n_lines : ℕ) where
    pub Accounts-started : Accounts f config n_lines (started lib config n_lines)
    unfolding BufferQueue.create
    Accounts-started =
        let none_queued = lib.create-contents config.queue_capacity in
        record {
          frames = rw none_queued refl;
          read_bytes = refl;
          drop_bytes = refl;
          frame_counts = refl;
          bytes = rw none_queued refl;
          signals = rw none_queued refl;
          same_lines = refl;
          same_size = refl;
          ready = λ e. omega (arith, length-replicate {A = ℕ} config.buffer_size 0);
        }

    module _ (s : System lib) (a : Accounts f config n_lines s) (datagram : List ℕ)
        (valid : lib.Queue) where
      Accounts-accepted :
          (carried f (offered s.socket datagram) ≡ f datagram)
            × (carried_bytes (offered s.socket datagram) ≡ length datagram)
            × (signal (offered s.socket datagram) ≡ 0)
          → ((w : LargeBuffer → ℕ)
              → total w (lib.contents valid) ≡ w (offered s.socket datagram) + total w (queued s))
          → Accounts f config n_lines (
              after_response lib s datagram (
                true,
                record s.socket { read_msg_buffer = moved_from (offered s.socket datagram) },
                record s.handle {
                  total_read_data_bytes = s.handle.total_read_data_bytes + length datagram;
                  total_frame_counts = s.handle.total_frame_counts + 1;
                  buffer_queue = record s.handle.buffer_queue { valid_buffer_queue = valid };
                },
              ))
      Accounts-accepted weights grown = record {
        frames = omega (arith, weights, grown (carried f), a.frames);
        read_bytes = omega (arith, a.read_bytes);
        drop_bytes = a.drop_bytes;
        frame_counts = omega (arith, a.frame_counts);
        bytes = omega (arith, weights, grown carried_bytes, a.bytes);
        signals = omega (arith, weights, grown signal, a.signals) ∙ a.signals;
        same_lines = a.same_lines;
        same_size = a.same_size;
        ready = λ e. absurd (some-ne-none _ e);
      }

      Accounts-refused :
          ((w : LargeBuffer → ℕ) → total w (lib.contents valid) ≡ total w (queued s))
          → Accounts f config n_lines (
              after_response lib s datagram (
                false,
                restore s.socket (offered s.socket datagram) (length datagram),
                record s.handle {
                  total_read_data_bytes = s.handle.total_read_data_bytes + length datagram;
                  total_frame_counts = s.handle.total_frame_counts + 1;
                  total_drop_data_bytes = s.handle.total_drop_data_bytes + length datagram;
                  buffer_queue = record s.handle.buffer_queue {
                    valid_buffer_queue = valid;
                    n_valid_buffer_full_failures =
                        s.handle.buffer_queue.n_valid_buffer_full_failures + 1;
                  };
                },
              ))
      unfolding restore
      Accounts-refused same = record {
        frames = omega (arith, same (carried f), a.frames);
        read_bytes = omega (arith, a.read_bytes);
        drop_bytes = omega (arith, a.drop_bytes);
        frame_counts = omega (arith, a.frame_counts);
        bytes = omega (arith, same carried_bytes, a.bytes);
        signals = omega (arith, same signal) ∙ a.signals;
        same_lines = a.same_lines;
        same_size = a.same_size;
        ready = λ e.
            omega
              (arith, length-resize (offered s.socket datagram) s.socket.buffer_size, a.same_size);
      }

    module _ (s : System lib) (a : Accounts f config n_lines s) where
      -- What the queue is offered carries the datagram, and is not a signal to stop.
      offered-not_empty :
          (datagram : List ℕ)
          → 0 < config.buffer_size
          → s.asking ≡ none
          → length datagram ≤ length s.socket.read_msg_buffer.data_
          → is_empty (offered s.socket datagram) ≡ false
      unfolding is_empty
      offered-not_empty datagram some_size listening fits =
          let filled = length-fill s.socket.read_msg_buffer datagram fits in
          let kept = length-resize (fill s.socket.read_msg_buffer datagram) (length datagram) in
          ground (arith, a.ready listening, filled, kept)

      offered_weights :
          (datagram : List ℕ)
          → length datagram ≤ length s.socket.read_msg_buffer.data_
          → is_empty (offered s.socket datagram) ≡ false
          → (carried f (offered s.socket datagram) ≡ f datagram)
            × (carried_bytes (offered s.socket datagram) ≡ length datagram)
            × (signal (offered s.socket datagram) ≡ 0)
      offered_weights datagram fits e = (
        rw e (ap f (valid_data-resize s.socket.read_msg_buffer datagram fits)),
        rw e (size-offered s.socket datagram),
        rw e refl,
      )

      pub Accounts-receive :
          (datagram : List ℕ)
          → 0 < config.buffer_size
          → s.asking ≡ none
          → length datagram ≤ length s.socket.read_msg_buffer.data_
          → Accounts f config n_lines
              (after_response lib s datagram (begin_response lib s.socket s.handle datagram))
      Accounts-receive datagram some_size listening fits =
          go (lib.try_enqueue s.handle.buffer_queue.valid_buffer_queue (offered s.socket datagram))
            refl
        where
          Goal : Bool × DataSocket × AnalysisHandle lib → Type 0
          Goal r = Accounts f config n_lines (after_response lib s datagram r)

          go :
              (r : Bool × lib.Queue)
              → lib.try_enqueue s.handle.buffer_queue.valid_buffer_queue (offered s.socket datagram)
                ≡ r
              → Accounts f config n_lines
                  (after_response lib s datagram (begin_response lib s.socket s.handle datagram))
          go (true, valid) e =
              subst Goal (sym (begin_response-accepted lib s.socket s.handle datagram valid e)) (
                Accounts-accepted s a datagram valid
                  (offered_weights datagram fits
                    (offered-not_empty datagram some_size listening fits))
                  (λ w. try_enqueue-total lib (offered s.socket datagram) w _ valid true e))
          go (false, valid) e =
              subst Goal (sym (begin_response-refused lib s.socket s.handle datagram valid e)) (
                Accounts-refused s a datagram valid (λ w.
                  omega
                    (arith, try_enqueue-total lib (offered s.socket datagram) w _ valid false e)))

      Accounts-restored :
          (buffer : LargeBuffer) (read_size : ℕ) (q : BufferQueue lib)
          → q.valid_buffer_queue ≡ s.handle.buffer_queue.valid_buffer_queue
          → Accounts f config n_lines (
              after_restock lib s
                (restore s.socket buffer read_size, record s.handle { buffer_queue = q }))
      unfolding restore
      Accounts-restored buffer read_size q same =
          let same_total : (w : LargeBuffer → ℕ)
              → total w (lib.contents q.valid_buffer_queue) ≡ total w (queued s) =
            λ w. ap (λ v. total w (lib.contents v)) same in
          record {
            frames = omega (arith, a.frames, same_total (carried f));
            read_bytes = a.read_bytes;
            drop_bytes = a.drop_bytes;
            frame_counts = a.frame_counts;
            bytes = omega (arith, a.bytes, same_total carried_bytes);
            signals = omega (arith, same_total signal) ∙ a.signals;
            same_lines = a.same_lines;
            same_size = a.same_size;
            ready = λ e. omega (arith, length-resize buffer s.socket.buffer_size, a.same_size);
          }

      pub Accounts-restock :
          (read_size : ℕ)
          → Accounts f config n_lines
              (after_restock lib s (end_response lib s.socket s.handle read_size))
      Accounts-restock read_size =
          go (lib.try_dequeue s.handle.buffer_queue.trash_buffer_queue) refl
        where
          Goal : DataSocket × AnalysisHandle lib → Type 0
          Goal r = Accounts f config n_lines (after_restock lib s r)

          go :
              (r : Option (LargeBuffer × lib.Queue))
              → lib.try_dequeue s.handle.buffer_queue.trash_buffer_queue ≡ r
              → Accounts f config n_lines
                  (after_restock lib s (end_response lib s.socket s.handle read_size))
          go none e =
              subst Goal (sym (end_response-new lib s.socket s.handle read_size e))
                (Accounts-restored _ read_size _ refl)
          go (some (recycled, trash)) e =
              subst Goal
                (sym (end_response-recycled lib s.socket s.handle read_size recycled trash e))
                (Accounts-restored recycled read_size _ refl)

-- ===== src/Workflow/Pipeline/Halves.antt =====
-- The outcomes of the two halves of `DataSocket::response_handler`, by what the library answers.
use srs_control.Base.{ℕ, ◌+◌, ◌≡◌, ap, true, false, List, length, none, some}
use srs_control.Connections.DataSocket.{DataSocket, restore, answered, begin_response, end_response}
use srs_control.Data.BufferQueue.{BufferQueue}
use srs_control.Data.ConcurrentQueue.{ConcurrentQueue}
use srs_control.Data.LargeBuffer.{LargeBuffer, moved_from, resize, fill}
use srs_control.Workflow.AnalysisHandle.{AnalysisHandle, counted, begin_read, end_read}
use srs_control.Workflow.Pipeline.Queues.{push-accepted, push-refused, refill-recycled, refill-new}

-- The buffer that the queue is offered.
abbrev pub offered : DataSocket → (datagram : List ℕ) → LargeBuffer
offered s datagram = resize (fill s.read_msg_buffer datagram) (length datagram)

module _ (lib : ConcurrentQueue) (s : DataSocket) (h : AnalysisHandle lib) where
  pub begin_response-accepted :
      (datagram : List ℕ) (valid : lib.Queue)
      → lib.try_enqueue h.buffer_queue.valid_buffer_queue (offered s datagram) ≡ (true, valid)
      → begin_response lib s h datagram ≡ (
        true,
        record s { read_msg_buffer = moved_from (offered s datagram) },
        record h {
          total_read_data_bytes = h.total_read_data_bytes + length datagram;
          total_frame_counts = h.total_frame_counts + 1;
          buffer_queue = record h.buffer_queue { valid_buffer_queue = valid };
        },
      )
  unfolding begin_response answered begin_read counted resize
  begin_response-accepted datagram valid e =
      ap (λ r. answered lib s (length datagram) (counted lib h (length datagram) r))
        (push-accepted lib h.buffer_queue (offered s datagram) valid e)

  pub begin_response-refused :
      (datagram : List ℕ) (valid : lib.Queue)
      → lib.try_enqueue h.buffer_queue.valid_buffer_queue (offered s datagram) ≡ (false, valid)
      → begin_response lib s h datagram ≡ (
        false,
        restore s (offered s datagram) (length datagram),
        record h {
          total_read_data_bytes = h.total_read_data_bytes + length datagram;
          total_frame_counts = h.total_frame_counts + 1;
          total_drop_data_bytes = h.total_drop_data_bytes + length datagram;
          buffer_queue = record h.buffer_queue {
            valid_buffer_queue = valid;
            n_valid_buffer_full_failures = h.buffer_queue.n_valid_buffer_full_failures + 1;
          };
        },
      )
  unfolding begin_response answered begin_read counted resize
  begin_response-refused datagram valid e =
      ap (λ r. answered lib s (length datagram) (counted lib h (length datagram) r))
        (push-refused lib h.buffer_queue (offered s datagram) valid e)

  pub end_response-recycled :
      (read_size : ℕ) (recycled : LargeBuffer) (trash : lib.Queue)
      → lib.try_dequeue h.buffer_queue.trash_buffer_queue ≡ some (recycled, trash)
      → end_response lib s h read_size ≡ (
        restore s recycled read_size,
        record h { buffer_queue = record h.buffer_queue { trash_buffer_queue = trash } },
      )
  unfolding end_response end_read
  end_response-recycled read_size recycled trash e =
      ap
        (λ (r : LargeBuffer × BufferQueue lib).
          (restore s r.0 read_size, record h { buffer_queue = r.1 }))
        (refill-recycled lib h.buffer_queue s.read_msg_buffer recycled trash e)

  pub end_response-new :
      (read_size : ℕ)
      → lib.try_dequeue h.buffer_queue.trash_buffer_queue ≡ none
      → end_response lib s h read_size ≡ (
        restore s (resize s.read_msg_buffer h.buffer_queue.config.buffer_size) read_size,
        record h {
          buffer_queue = record h.buffer_queue {
            n_trash_recycle_empty_failures = h.buffer_queue.n_trash_recycle_empty_failures + 1;
          };
        },
      )
  unfolding end_response end_read
  end_response-new read_size e =
      ap
        (λ (r : LargeBuffer × BufferQueue lib).
          (restore s r.0 read_size, record h { buffer_queue = r.1 }))
        (refill-new lib h.buffer_queue s.read_msg_buffer e)

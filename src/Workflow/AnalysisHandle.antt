-- ===== src/Workflow/AnalysisHandle.antt =====
-- backend/srs/workflow/AnalysisHandle.cpp and .hpp: what is counted of the frames that the socket
-- reads, and how the pipeline is stopped. `begin_read` is `read_data_once` up to the second half of
-- `BufferQueue::enqueue`. The clocks and the warning of a drop are left out, and so is the wait of
-- `stop_workflow` for lines that are busy.
use srs_control.Base.{ℕ, ◌+◌, Bool, true, false, if◌then◌else◌}
use srs_control.Data.BufferQueue.{BufferQueue, push, refill, enqueue_empty}
use srs_control.Data.ConcurrentQueue.{ConcurrentQueue}
use srs_control.Data.LargeBuffer.{LargeBuffer}

pub record AnalysisHandle (lib : ConcurrentQueue) : Type 0 where
  pub n_lines : ℕ
  pub is_stopped : Bool
  pub total_read_data_bytes : ℕ
  pub total_drop_data_bytes : ℕ
  pub total_frame_counts : ℕ
  pub buffer_queue : BufferQueue lib

module _ (lib : ConcurrentQueue) where
  unfoldable pub start : AnalysisHandle lib → AnalysisHandle lib
  start h = record h { is_stopped = false }

  -- After `data_size` bytes were counted, by the result of the queue.
  unfoldable pub counted :
      AnalysisHandle lib
      → (data_size : ℕ) → Bool × LargeBuffer × BufferQueue lib
      → Bool × LargeBuffer × AnalysisHandle lib
  counted h data_size (true, element, q) = (
    true,
    element,
    record h {
      total_read_data_bytes = h.total_read_data_bytes + data_size;
      total_frame_counts = h.total_frame_counts + 1;
      buffer_queue = q;
    },
  )
  counted h data_size (false, element, q) = (
    false,
    element,
    record h {
      total_read_data_bytes = h.total_read_data_bytes + data_size;
      total_frame_counts = h.total_frame_counts + 1;
      total_drop_data_bytes = h.total_drop_data_bytes + data_size;
      buffer_queue = q;
    },
  )

  unfoldable pub begin_read :
      AnalysisHandle lib → (read_data : LargeBuffer) → Bool × LargeBuffer × AnalysisHandle lib
  begin_read h read_data = counted h read_data.size_ (push lib h.buffer_queue read_data)

  unfoldable pub end_read : AnalysisHandle lib → LargeBuffer → LargeBuffer × AnalysisHandle lib
  end_read h element =
      let (element, q) = refill lib h.buffer_queue element in
      (element, record h { buffer_queue = q })

  end_read_if : Bool × LargeBuffer × AnalysisHandle lib → LargeBuffer × AnalysisHandle lib
  end_read_if (false, element, h) = (element, h)
  end_read_if (true, element, h) = end_read h element

  unfoldable pub read_data_once :
      AnalysisHandle lib → (read_data : LargeBuffer) → LargeBuffer × AnalysisHandle lib
  unfolding end_read_if
  read_data_once h read_data = end_read_if (begin_read h read_data)

  unfoldable pub stop_workflow : AnalysisHandle lib → AnalysisHandle lib
  stop_workflow h =
      if h.is_stopped
      then h
      else record h { is_stopped = true; buffer_queue = enqueue_empty lib h.buffer_queue h.n_lines }

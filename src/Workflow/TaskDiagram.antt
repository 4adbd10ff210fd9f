-- ===== src/Workflow/TaskDiagram.antt =====
-- backend/srs/workflow/TaskDiagram.cpp: `run_task`, with which a pipeline line takes a frame.
-- It is `dequeue`, whose halves the pipeline interleaves, and then `accept`.
use srs_control.Base.{ℕ, ◌+◌, Bool, not, Option, none, some, if◌then◌else◌}
use srs_control.Data.BufferQueue.{BufferQueue, dequeue}
use srs_control.Data.ConcurrentQueue.{ConcurrentQueue}
use srs_control.Data.LargeBuffer.{LargeBuffer, is_empty}

-- `run_task` on the buffer that came out of the queue: its result and the bytes read so far.
unfoldable pub accept : (total_read_data_bytes : ℕ) → LargeBuffer → Bool × ℕ
accept total_read_data_bytes raw_data =
    let valid = not (is_empty raw_data) in
    (valid, if valid then total_read_data_bytes + raw_data.size_ else total_read_data_bytes)

module _ (lib : ConcurrentQueue) where
  unfoldable pub run_task :
      (total_read_data_bytes : ℕ)
      → BufferQueue lib
      → (raw_data : LargeBuffer) → Option ((Bool × ℕ) × LargeBuffer × BufferQueue lib)
  run_task total_read_data_bytes q raw_data = elim (dequeue lib q raw_data) [
    | none ↦ none
    | some (element, q) ↦ some (accept total_read_data_bytes element, element, q)
  ]

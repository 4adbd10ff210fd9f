-- ===== src/Workflow/Pipeline/Tests.antt =====
-- The accounts at a run with queues of one buffer and one line: a datagram of one byte is analysed,
-- one of two bytes stands in the queue, an empty one is dropped, and the workflow is stopped.
use srs_control.Base.{ℕ, ◌+◌, ◌≡◌, ◌≤◌, refl, true, List, [], ◌∷◌, none, arith, length, total}
use srs_control.Connections.DataSocket.{answered, restore, begin_response, end_response}
use srs_control.Data.BoundedQueue.{bounded, offer, first}
use srs_control.Data.BufferQueue
use srs_control.Data.BufferQueue.{
  Config, reserve, push, pushed, refill, give_back, given_back, took, wait_valid, enqueue_empty,
}
use srs_control.Data.LargeBuffer.{LargeBuffer, empty_buffer, resize, valid_data, is_empty, fill}
use srs_control.Workflow.AnalysisHandle.{counted, begin_read, end_read, stop_workflow}
use srs_control.Workflow.Pipeline.Accounts.{carried, carried_bytes, signal, queued}
use srs_control.Workflow.Pipeline.Buffers.{buffers_balance}
use srs_control.Workflow.Pipeline.Frames.{frames_balance, bytes_balance, signals_balance}
use srs_control.Workflow.Pipeline.Kept.{held, socket_held, in_queues, reserved}
use srs_control.Workflow.Pipeline.{
  System, analysing, Reach, here, next, receive, restock, return_buffer, take_buffer, stop,
}
use srs_control.Workflow.TaskDiagram.{accept}

abbrev config : Config
config = record { buffer_size = 2; reserve_size = 1; queue_capacity = 1 }

abbrev buffer : (size : ℕ) → List ℕ → LargeBuffer
buffer size bytes = record { size_ = size; data_ = bytes }

abbrev final : System bounded
unfolding bounded
final = record {
  socket = record {
    buffer_size = 2;
    read_msg_buffer = buffer 2 (0 ∷ 0 ∷ []);
    n_records = 3;
    n_bytes = 3;
  };
  asking = none;
  handle = record {
    n_lines = 1;
    is_stopped = true;
    total_read_data_bytes = 3;
    total_drop_data_bytes = 0;
    total_frame_counts = 3;
    buffer_queue = record {
      config = config;
      n_trash_recycle_empty_failures = 1;
      n_trash_recycle_full_failures = 1;
      n_valid_buffer_full_failures = 1;
      valid_buffer_queue = (1, buffer 2 (6 ∷ 7 ∷ []) ∷ empty_buffer ∷ []);
      trash_buffer_queue = (1, []);
    };
  };
  lines = analysing (buffer 1 (5 ∷ 0 ∷ [])) ∷ [];
  total_read_data_bytes = 1;
  received = [] ∷ (6 ∷ 7 ∷ []) ∷ (5 ∷ []) ∷ [];
  dropped = [] ∷ [];
  delivered = (5 ∷ []) ∷ [];
  told_to_stop = 0;
}

run : Reach bounded config 1 final
unfolding bounded offer first BufferQueue.create reserve push pushed refill give_back given_back
    took wait_valid enqueue_empty resize valid_data is_empty fill counted begin_read end_read
    stop_workflow answered restore begin_response end_response accept
run =
    let r0 = here in
    let r1 = next r0 (return_buffer 0 (buffer 0 (0 ∷ 0 ∷ [])) refl) in
    let r2 = next r1 (receive (5 ∷ []) refl (omega arith)) in
    let r3 = next r2 (restock 1 refl) in
    let r4 = next r3 (take_buffer 0 (buffer 0 (0 ∷ 0 ∷ [])) (buffer 1 (5 ∷ 0 ∷ [])) _ refl refl) in
    let r5 = next r4 (receive (6 ∷ 7 ∷ []) refl (omega arith)) in
    let r6 = next r5 (restock 2 refl) in
    let r7 = next r6 (receive [] refl (omega arith)) in next r7 stop

frames_balance_example :
    total length final.received
    ≡ total length final.dropped
      + total (carried length) (queued bounded final)
      + total length final.delivered
frames_balance_example = frames_balance bounded config 1 (omega arith) length final run

bytes_balance_example :
    (final.handle.total_read_data_bytes
      ≡ final.handle.total_drop_data_bytes
        + total carried_bytes (queued bounded final)
        + final.total_read_data_bytes)
    × (final.handle.total_read_data_bytes ≡ total length final.received)
    × (final.handle.total_drop_data_bytes ≡ total length final.dropped)
    × (final.handle.total_frame_counts ≡ length final.received)
bytes_balance_example = bytes_balance bounded config 1 (omega arith) final run

signals_balance_example : total signal (queued bounded final) + final.told_to_stop ≡ 1
unfolding final
signals_balance_example = signals_balance bounded config 1 (omega arith) final run

buffers_balance_example :
    (in_queues bounded final
        + total held final.lines
        + socket_held final.asking
        + final.handle.buffer_queue.n_trash_recycle_full_failures
      ≡ reserved bounded config
        + 1
        + 1
        + final.handle.buffer_queue.n_trash_recycle_empty_failures
        + 1)
    × (reserved bounded config ≤ 1)
unfolding final
buffers_balance_example = buffers_balance bounded config 1 final run

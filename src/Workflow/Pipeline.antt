-- ===== src/Workflow/Pipeline.antt =====
-- The way of a frame through the program: the socket of backend/srs/connections/DataSocket.cpp, the
-- handle of backend/srs/workflow/AnalysisHandle.cpp with its queue of buffers, and the lines of
-- backend/srs/workflow/TaskDiagram.cpp. They run in threads of their own: a step is what one of them
-- does up to its next operation on a queue. What came in and where it went is written down beside
-- the state, for the theorems.
pub mod Queues
pub mod Halves
pub mod Accounts
pub mod Lines
pub mod Frames
pub mod Kept
pub mod Buffers
mod Tests
use srs_control.Base.{
  ℕ, ◌+◌, ◌≤◌, ◌≡◌, Bool, true, false, List, [], ◌∷◌, Option, none, some, length, get_elem?, set,
  replicate,
}
use srs_control.Connections.DataSocket.{DataSocket, begin_response, end_response}
use srs_control.Connections.DataSocket
use srs_control.Data.BufferQueue.{BufferQueue, Config, give_back, wait_valid}
use srs_control.Data.BufferQueue
use srs_control.Data.ConcurrentQueue.{ConcurrentQueue}
use srs_control.Data.LargeBuffer.{LargeBuffer, allocate, valid_data}
use srs_control.Workflow.AnalysisHandle.{AnalysisHandle, stop_workflow}
use srs_control.Workflow.TaskDiagram.{accept}

-- A line holds a buffer that it has done with, waits for the next one in `dequeue`, or runs its
-- tasks on a buffer.
pub data Line : Type 0 where
  idle : (raw_data : LargeBuffer) → Line
  waiting : (raw_data : LargeBuffer) → Line
  analysing : (raw_data : LargeBuffer) → Line

-- `asking` is the size of the datagram whose buffer went to the queue, while the socket is still to
-- get another buffer. `told_to_stop` counts the results `false` of `run_task`.
pub record System (lib : ConcurrentQueue) : Type 0 where
  pub socket : DataSocket
  pub asking : Option ℕ
  pub handle : AnalysisHandle lib
  pub lines : List Line
  pub total_read_data_bytes : ℕ
  pub received : List (List ℕ)
  pub dropped : List (List ℕ)
  pub delivered : List (List ℕ)
  pub told_to_stop : ℕ

module _ (lib : ConcurrentQueue) where
  -- The system that was started, with so many lines.
  abbrev pub started : Config → (n_lines : ℕ) → System lib
  started config n_lines = record {
    socket = DataSocket.create config.buffer_size;
    asking = none;
    handle = record {
      n_lines = n_lines;
      is_stopped = false;
      total_read_data_bytes = 0;
      total_drop_data_bytes = 0;
      total_frame_counts = 0;
      buffer_queue = BufferQueue.create lib config;
    };
    lines = replicate n_lines (idle (allocate config.buffer_size));
    total_read_data_bytes = 0;
    received = [];
    dropped = [];
    delivered = [];
    told_to_stop = 0;
  }

  abbrev pub after_response :
      System lib → (datagram : List ℕ) → Bool × DataSocket × AnalysisHandle lib → System lib
  after_response s datagram (true, socket, handle) = record s {
    socket = socket;
    asking = some (length datagram);
    handle = handle;
    received = datagram ∷ s.received;
  }
  after_response s datagram (false, socket, handle) = record s {
    socket = socket;
    handle = handle;
    received = datagram ∷ s.received;
    dropped = datagram ∷ s.dropped;
  }

  abbrev pub after_restock : System lib → DataSocket × AnalysisHandle lib → System lib
  after_restock s (socket, handle) = record s { socket = socket; asking = none; handle = handle }

  abbrev pub with_queue : System lib → (line : ℕ) → Line → BufferQueue lib → System lib
  with_queue s line phase q = record s {
    handle = record s.handle { buffer_queue = q };
    lines = set s.lines line phase;
  }

  abbrev pub after_give_back : System lib → (line : ℕ) → LargeBuffer × BufferQueue lib → System lib
  after_give_back s line (element, q) = with_queue s line (waiting element) q

  -- What `run_task` does with the buffer that it got.
  abbrev pub after_accept : System lib → (raw_data : LargeBuffer) → Bool × ℕ → System lib
  after_accept s raw_data (true, bytes) = record s {
    total_read_data_bytes = bytes;
    delivered = valid_data raw_data ∷ s.delivered;
  }
  after_accept s raw_data (false, bytes) = record s {
    total_read_data_bytes = bytes;
    told_to_stop = s.told_to_stop + 1;
  }

  pub data Step (s : System lib) : System lib → Type 0 where
    -- The socket reads a datagram that the buffer holds; longer ones are cut by the socket.
    receive :
        (datagram : List ℕ)
        → s.asking ≡ none
        → length datagram ≤ length s.socket.read_msg_buffer.data_
        → Step s (after_response s datagram (begin_response lib s.socket s.handle datagram))
    restock :
        (read_size : ℕ)
        → s.asking ≡ some read_size
        → Step s (after_restock s (end_response lib s.socket s.handle read_size))
    return_buffer :
        (line : ℕ) (raw_data : LargeBuffer)
        → get_elem? s.lines line ≡ some (idle raw_data)
        → Step s (after_give_back s line (give_back lib s.handle.buffer_queue raw_data))
    take_buffer :
        (line : ℕ) (old raw_data : LargeBuffer) (q : BufferQueue lib)
        → get_elem? s.lines line ≡ some (waiting old)
        → wait_valid lib s.handle.buffer_queue ≡ some (raw_data, q)
        → Step s (
            after_accept
              (with_queue s line (analysing raw_data) q)
              raw_data
              (accept s.total_read_data_bytes raw_data))
    finish_line :
        (line : ℕ) (raw_data : LargeBuffer)
        → get_elem? s.lines line ≡ some (analysing raw_data)
        → Step s (record s { lines = set s.lines line (idle raw_data) })
    stop : Step s (record s { handle = stop_workflow lib s.handle })

  pub data Reach (config : Config) (n_lines : ℕ) : System lib → Type 0 where
    here : Reach config n_lines (started config n_lines)
    next : {s t : System lib} → Reach config n_lines s → Step s t → Reach config n_lines t

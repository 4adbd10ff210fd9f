-- ===== src/Connections/DataSocket.antt =====
-- backend/srs/connections/DataSocket.cpp and .hpp, with the loop of `async_listen_all_connections`
-- in SpecialSocketBase.hpp that calls it: one datagram after another is written to the buffer and
-- handed on. `begin_response` ends, if the buffer went to the queue, where the queue is asked for
-- another one, and `end_response` goes on there.
use srs_control.Base.{ℕ, ◌+◌, Bool, true, false, List, length}
use srs_control.Data.ConcurrentQueue.{ConcurrentQueue}
use srs_control.Data.LargeBuffer.{LargeBuffer, allocate, resize, fill}
use srs_control.Workflow.AnalysisHandle.{AnalysisHandle, begin_read, end_read}

pub record DataSocket : Type 0 where
  pub buffer_size : ℕ
  pub read_msg_buffer : LargeBuffer
  pub n_records : ℕ
  pub n_bytes : ℕ

abbrev pub create : (buffer_size : ℕ) → DataSocket
create buffer_size = record {
  buffer_size = buffer_size;
  read_msg_buffer = allocate buffer_size;
  n_records = 0;
  n_bytes = 0;
}

-- The buffer gets its full size again, and the datagram is counted.
unfoldable pub restore : DataSocket → (buffer : LargeBuffer) (receive_size : ℕ) → DataSocket
restore s buffer receive_size = record s {
  read_msg_buffer = resize buffer s.buffer_size;
  n_records = s.n_records + 1;
  n_bytes = s.n_bytes + receive_size;
}

module _ (lib : ConcurrentQueue) where
  unfoldable pub answered :
      DataSocket
      → (read_size : ℕ) → Bool × LargeBuffer × AnalysisHandle lib
      → Bool × DataSocket × AnalysisHandle lib
  answered s read_size (true, element, h) = (true, record s { read_msg_buffer = element }, h)
  answered s read_size (false, element, h) = (false, restore s element read_size, h)

  unfoldable pub begin_response :
      DataSocket → AnalysisHandle lib → (datagram : List ℕ) → Bool × DataSocket × AnalysisHandle lib
  begin_response s h datagram =
      let read_size = length datagram in
      answered s read_size (begin_read lib h (resize (fill s.read_msg_buffer datagram) read_size))

  unfoldable pub end_response :
      DataSocket → AnalysisHandle lib → (read_size : ℕ) → DataSocket × AnalysisHandle lib
  end_response s h read_size =
      let (element, h) = end_read lib h s.read_msg_buffer in (restore s element read_size, h)

  unfoldable pub end_response_if :
      (read_size : ℕ) → Bool × DataSocket × AnalysisHandle lib → DataSocket × AnalysisHandle lib
  end_response_if read_size (false, s, h) = (s, h)
  end_response_if read_size (true, s, h) = end_response s h read_size

  unfoldable pub response_handler :
      DataSocket → AnalysisHandle lib → (datagram : List ℕ) → DataSocket × AnalysisHandle lib
  unfolding end_response_if
  response_handler s h datagram = end_response_if (length datagram) (begin_response s h datagram)

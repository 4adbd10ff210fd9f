-- ===== src/Workflow/Pipeline/Frames.antt =====
-- Where the datagrams go that backend/srs/connections/DataSocket.cpp reads, in every interleaving of
-- the socket, the lines of backend/srs/workflow/TaskDiagram.cpp and the stop of
-- backend/srs/workflow/AnalysisHandle.cpp.
use srs_control.Base.{ℕ, ◌+◌, ◌<◌, ◌≡◌, List, length, total, if◌then◌else◌, refl}
use srs_control.Data.BufferQueue.{Config}
use srs_control.Data.ConcurrentQueue.{ConcurrentQueue}
use srs_control.Workflow.Pipeline.Accounts.{
  Accounts, Accounts-started, Accounts-receive, Accounts-restock, carried, carried_bytes, signal,
  queued,
}
use srs_control.Workflow.Pipeline.Lines.{
  Accounts-give_back, Accounts-take_buffer, Accounts-with_queue, Accounts-stop,
}
use srs_control.Workflow.Pipeline.{
  System, idle, Step, receive, restock, return_buffer, take_buffer, finish_line, stop, Reach, here,
  next,
}

module _ (lib : ConcurrentQueue) (config : Config) (n_lines : ℕ)
    (some_size : 0 < config.buffer_size) where
  Accounts-Step :
      (f : List ℕ → ℕ) (s t : System lib)
      → Step lib s t
      → Accounts lib f config n_lines s
      → Accounts lib f config n_lines t
  Accounts-Step f s _ (receive datagram listening fits) a =
      Accounts-receive lib f config n_lines s a datagram some_size listening fits
  Accounts-Step f s _ (restock read_size e) a = Accounts-restock lib f config n_lines s a read_size
  Accounts-Step f s _ (return_buffer line raw_data e) a =
      Accounts-give_back lib f config n_lines s line raw_data a
  Accounts-Step f s _ (take_buffer line old raw_data q e taken) a =
      Accounts-take_buffer lib f config n_lines s line raw_data q taken a
  Accounts-Step f s _ (finish_line line raw_data e) a =
      Accounts-with_queue lib f config n_lines s line (idle raw_data) s.handle.buffer_queue refl a
  Accounts-Step f s _ (stop) a = Accounts-stop lib f config n_lines s a

  Reach-Accounts :
      (f : List ℕ → ℕ) {s : System lib}
      → Reach lib config n_lines s
      → Accounts lib f config n_lines s
  Reach-Accounts f (here) = Accounts-started lib f config n_lines
  Reach-Accounts f (next r step) = Accounts-Step f _ _ step (Reach-Accounts f r)

  -- In every state that the program reaches with buffers of at least one byte, and whatever the
  -- library answers: the datagrams that the socket received are those that were dropped because the
  -- queue was full, those in the queue, and those that were handed to a line, each as often and
  -- with the bytes that it was received with. This is said by their weights, for every weight of a
  -- datagram.
  pub frames_balance :
      (f : List ℕ → ℕ) (s : System lib)
      → Reach lib config n_lines s
      → total f s.received
        ≡ total f s.dropped + total (carried f) (queued lib s) + total f s.delivered
  frames_balance f s r = (Reach-Accounts f r).frames

  -- In every such state: the bytes that the handle counts as read are those that it counts as
  -- dropped, those in the queue, and those that the task diagram counts as read; the handle's
  -- counts are the bytes of the datagrams received and dropped, and the number of those received.
  pub bytes_balance :
      (s : System lib)
      → Reach lib config n_lines s
      → (s.handle.total_read_data_bytes
          ≡ s.handle.total_drop_data_bytes
            + total carried_bytes (queued lib s)
            + s.total_read_data_bytes)
        × (s.handle.total_read_data_bytes ≡ total length s.received)
        × (s.handle.total_drop_data_bytes ≡ total length s.dropped)
        × (s.handle.total_frame_counts ≡ length s.received)
  bytes_balance s r =
      let a = Reach-Accounts length r in (a.bytes, a.read_bytes, a.drop_bytes, a.frame_counts)

  -- In every such state: the signals to stop in the queue and the lines that were told to stop are
  -- together as many as there are lines if the workflow was stopped, and none before. No datagram
  -- stops a line, not even one without bytes.
  pub signals_balance :
      (s : System lib)
      → Reach lib config n_lines s
      → total signal (queued lib s) + s.told_to_stop ≡ (if s.handle.is_stopped then n_lines else 0)
  signals_balance s r = (Reach-Accounts length r).signals

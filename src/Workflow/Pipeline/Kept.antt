-- ===== src/Workflow/Pipeline/Kept.antt =====
-- The balance of the buffers of backend/srs/data/BufferQueue.cpp and its users, and that the steps
-- of the socket keep it.
use mathlib.Core.Option.{some-injective}
use srs_control.Base.{
  ℕ, zero, suc, ◌+◌, ◌≤◌, ◌≡◌, refl, sym, subst, ap, ◌∙◌, Bool, true, false, List, [], ◌∷◌, Option,
  none, some, arith, if◌then◌else◌, total, total-replicate, get_elem?, set,
}
use srs_control.Connections.DataSocket.{DataSocket, begin_response, end_response}
use srs_control.Data.BufferQueue
use srs_control.Data.BufferQueue.{BufferQueue, Config, reserve, wait_valid, give_back}
use srs_control.Data.ConcurrentQueue.{ConcurrentQueue}
use srs_control.Data.LargeBuffer.{LargeBuffer, allocate}
use srs_control.Workflow.AnalysisHandle.{AnalysisHandle}
use srs_control.Workflow.Pipeline.Halves.{
  offered, begin_response-accepted, begin_response-refused, end_response-recycled, end_response-new,
}
use srs_control.Workflow.Pipeline.Queues.{total-Taken, try_enqueue-total}
use srs_control.Workflow.Pipeline.{
  System, Line, idle, waiting, analysing, started, after_response, after_restock,
}

abbrev pub one : LargeBuffer → ℕ
one b = 1

-- A line has no buffer while it waits for one, and the socket none while it asks for one.
abbrev pub held : Line → ℕ
held (idle b) = 1
held (waiting b) = 0
held (analysing b) = 1

abbrev pub socket_held : Option ℕ → ℕ
socket_held none = 1
socket_held (some n) = 0

pub held-set :
    (lines : List Line) (line : ℕ) (old new : Line)
    → get_elem? lines line ≡ some old
    → total held (set lines line new) + held old ≡ total held lines + held new
held-set [] line old new h = ground arith
held-set (x ∷ lines) zero old new h = omega (arith, ap held (some-injective x old h))
held-set (x ∷ lines) (suc line) old new h = omega (arith, held-set lines line old new h)

module _ (lib : ConcurrentQueue) where
  abbrev pub in_queues : System lib → ℕ
  in_queues s =
      total one (lib.contents s.handle.buffer_queue.valid_buffer_queue)
      + total one (lib.contents s.handle.buffer_queue.trash_buffer_queue)

  abbrev pub reserved : Config → ℕ
  reserved config = total one (lib.contents (BufferQueue.create lib config).trash_buffer_queue)

  abbrev pub Kept : (config : Config) (n_lines : ℕ) → System lib → Type 0
  Kept config n_lines s =
      (in_queues s
          + total held s.lines
          + socket_held s.asking
          + s.handle.buffer_queue.n_trash_recycle_full_failures
        ≡ reserved config
          + n_lines
          + 1
          + s.handle.buffer_queue.n_trash_recycle_empty_failures
          + (if s.handle.is_stopped then n_lines else 0))
      × (s.handle.n_lines ≡ n_lines)

  enqueue-one :
      (old new : lib.Queue) (buffer_size : ℕ) (accepted : Bool)
      → lib.try_enqueue old (allocate buffer_size) ≡ (accepted, new)
      → total one (lib.contents new) ≡ (if accepted then 1 else 0) + total one (lib.contents old)
  enqueue-one old new buffer_size accepted e =
      try_enqueue-total lib (allocate buffer_size) one old new accepted e

  pub reserve-le :
      (n buffer_size : ℕ) (q : lib.Queue)
      → total one (lib.contents (reserve lib n buffer_size q)) ≤ n + total one (lib.contents q)
  unfolding reserve
  reserve-le zero buffer_size q = omega arith
  reserve-le (suc n) buffer_size q =
      go (reserve-le n buffer_size) (lib.try_enqueue q (allocate buffer_size)) refl
    where
      after : Bool × lib.Queue → lib.Queue
      after r = elim r.0 [ true ↦ reserve lib n buffer_size r.1 | false ↦ r.1 ]

      go :
          ((q : lib.Queue)
            → total one (lib.contents (reserve lib n buffer_size q))
              ≤ n + total one (lib.contents q))
          → (r : Bool × lib.Queue) → lib.try_enqueue q (allocate buffer_size) ≡ r
          → total one (lib.contents (after (lib.try_enqueue q (allocate buffer_size))))
            ≤ suc n + total one (lib.contents q)
      go fewer (true, left) e =
          subst (λ r. total one (lib.contents (after r)) ≤ suc n + total one (lib.contents q))
            (sym e) (omega (arith, fewer left, enqueue-one q left buffer_size true e))
      go fewer (false, left) e =
          subst (λ r. total one (lib.contents (after r)) ≤ suc n + total one (lib.contents q))
            (sym e) (omega (arith, enqueue-one q left buffer_size false e))

  module _ (config : Config) (n_lines : ℕ) where
    pub Kept-started : Kept config n_lines (started lib config n_lines)
    unfolding BufferQueue.create
    Kept-started = (
      omega (
        arith,
        ap (total one) (lib.create-contents config.queue_capacity),
        total-replicate held n_lines (idle (allocate config.buffer_size)),
      ),
      refl,
    )

    pub Kept-receive :
        (s : System lib) (datagram : List ℕ)
        → s.asking ≡ none
        → Kept config n_lines s
        → Kept config n_lines
            (after_response lib s datagram (begin_response lib s.socket s.handle datagram))
    Kept-receive s datagram listening k =
        go (lib.try_enqueue s.handle.buffer_queue.valid_buffer_queue (offered s.socket datagram))
          refl
      where
        Goal : Bool × DataSocket × AnalysisHandle lib → Type 0
        Goal r = Kept config n_lines (after_response lib s datagram r)

        go :
            (r : Bool × lib.Queue)
            → lib.try_enqueue s.handle.buffer_queue.valid_buffer_queue (offered s.socket datagram)
              ≡ r
            → Goal (begin_response lib s.socket s.handle datagram)
        go (true, valid) e =
            let grown = try_enqueue-total lib (offered s.socket datagram) one _ valid true e in
            subst Goal (sym (begin_response-accepted lib s.socket s.handle datagram valid e))
              (omega (arith, k, grown, ap socket_held listening) ∙ k.0, k.1)
        go (false, valid) e =
            let same = try_enqueue-total lib (offered s.socket datagram) one _ valid false e in
            subst Goal (sym (begin_response-refused lib s.socket s.handle datagram valid e))
              (omega (arith, k, same) ∙ k.0, k.1)

    pub Kept-restock :
        (s : System lib) (read_size : ℕ)
        → s.asking ≡ some read_size
        → Kept config n_lines s
        → Kept config n_lines (after_restock lib s (end_response lib s.socket s.handle read_size))
    Kept-restock s read_size asked k =
        go (lib.try_dequeue s.handle.buffer_queue.trash_buffer_queue) refl
      where
        Goal : DataSocket × AnalysisHandle lib → Type 0
        Goal r = Kept config n_lines (after_restock lib s r)

        go :
            (r : Option (LargeBuffer × lib.Queue))
            → lib.try_dequeue s.handle.buffer_queue.trash_buffer_queue ≡ r
            → Goal (end_response lib s.socket s.handle read_size)
        go none e =
            subst Goal (sym (end_response-new lib s.socket s.handle read_size e))
              (omega (arith, k, ap socket_held asked), k.1)
        go (some (recycled, trash)) e =
            let taken =
              total-Taken one
                (lib.try_dequeue_takes s.handle.buffer_queue.trash_buffer_queue trash recycled e) in
            subst Goal
              (sym (end_response-recycled lib s.socket s.handle read_size recycled trash e))
              (omega (arith, k, taken, ap socket_held asked) ∙ k.0, k.1)

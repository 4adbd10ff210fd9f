-- ===== src/Workflow/Pipeline/Buffers.antt =====
-- How many buffers the program of backend/srs/data/BufferQueue.cpp and its users holds, in every
-- interleaving.
use srs_control.Base.{
  ℕ, ◌+◌, ◌≤◌, ◌≡◌, refl, sym, subst, ap, ◌∙◌, Bool, true, false, some, arith, if◌then◌else◌, total,
  get_elem?, Bool-cases, inl, inr,
}
use srs_control.Data.BufferQueue
use srs_control.Data.BufferQueue.{BufferQueue, Config, reserve, wait_valid, give_back}
use srs_control.Data.ConcurrentQueue.{ConcurrentQueue}
use srs_control.Data.LargeBuffer.{LargeBuffer}
use srs_control.Workflow.AnalysisHandle.{AnalysisHandle, stop_workflow}
use srs_control.Workflow.Pipeline.Lines.{
  stop_workflow-again, stop_workflow-first, enqueue_empty-total,
}
use srs_control.Workflow.Pipeline.Queues.{
  total-Taken, try_enqueue-total, give_back-accepted, give_back-refused, wait_valid-some,
}
use srs_control.Workflow.Pipeline.{
  System, idle, waiting, analysing, with_queue, after_give_back, after_accept, Step, receive,
  restock, return_buffer, take_buffer, finish_line, stop, Reach, here, next,
}
use srs_control.Workflow.TaskDiagram.{accept}
use srs_control.Workflow.Pipeline.Kept.{
  one, held, held-set, socket_held, in_queues, reserved, Kept, reserve-le, Kept-started,
  Kept-receive, Kept-restock,
}

module _ (lib : ConcurrentQueue) where
  module _ (config : Config) (n_lines : ℕ) where
    Kept-return_buffer :
        (s : System lib) (line : ℕ) (raw_data : LargeBuffer)
        → get_elem? s.lines line ≡ some (idle raw_data)
        → Kept lib config n_lines s
        → Kept lib config n_lines
            (after_give_back lib s line (give_back lib s.handle.buffer_queue raw_data))
    Kept-return_buffer s line raw_data h k =
        go (lib.try_enqueue s.handle.buffer_queue.trash_buffer_queue raw_data) refl
      where
        Goal : LargeBuffer × BufferQueue lib → Type 0
        Goal r = Kept lib config n_lines (after_give_back lib s line r)

        go :
            (r : Bool × lib.Queue)
            → lib.try_enqueue s.handle.buffer_queue.trash_buffer_queue raw_data ≡ r
            → Goal (give_back lib s.handle.buffer_queue raw_data)
        go (true, trash) e =
            subst Goal (sym (give_back-accepted lib s.handle.buffer_queue raw_data trash e)) (
              omega (
                arith,
                k,
                held-set s.lines line (idle raw_data) (waiting _) h,
                try_enqueue-total lib raw_data one _ trash true e,
              )
                  ∙ k.0,
              k.1,
            )
        go (false, trash) e =
            subst Goal (sym (give_back-refused lib s.handle.buffer_queue raw_data trash e)) (
              omega (
                arith,
                k,
                held-set s.lines line (idle raw_data) (waiting _) h,
                try_enqueue-total lib raw_data one _ trash false e,
              )
                  ∙ k.0,
              k.1,
            )

    Kept-take_buffer :
        (s : System lib) (line : ℕ) (old raw_data : LargeBuffer) (q : BufferQueue lib)
        → get_elem? s.lines line ≡ some (waiting old)
        → wait_valid lib s.handle.buffer_queue ≡ some (raw_data, q)
        → Kept lib config n_lines s
        → Kept lib config n_lines (
            after_accept lib
              (with_queue lib s line (analysing raw_data) q)
              raw_data
              (accept s.total_read_data_bytes raw_data))
    Kept-take_buffer s line old raw_data q h e k =
        let (valid, d, same) = wait_valid-some lib s.handle.buffer_queue raw_data q e in
        let taken =
          total-Taken one
            (lib.try_dequeue_takes s.handle.buffer_queue.valid_buffer_queue valid raw_data d) in
        subst Goal (sym same) (go valid taken (accept s.total_read_data_bytes raw_data))
      where
        Goal : BufferQueue lib → Type 0
        Goal q = Kept lib config n_lines (
            after_accept lib (with_queue lib s line (analysing raw_data) q) raw_data
              (accept s.total_read_data_bytes raw_data))

        go :
            (valid : lib.Queue)
            → total one (lib.contents s.handle.buffer_queue.valid_buffer_queue)
              ≡ 1 + total one (lib.contents valid)
            → (r : Bool × ℕ)
            → Kept lib config n_lines (
                after_accept lib
                  (with_queue lib s line
                    (analysing raw_data)
                    (record s.handle.buffer_queue { valid_buffer_queue = valid }))
                  raw_data
                  r)
        go valid taken (true, bytes) = (
          omega (arith, k, taken, held-set s.lines line (waiting old) (analysing raw_data) h) ∙ k.0,
          k.1,
        )
        go valid taken (false, bytes) = (
          omega (arith, k, taken, held-set s.lines line (waiting old) (analysing raw_data) h) ∙ k.0,
          k.1,
        )

    Kept-stop :
        (s : System lib)
        → Kept lib config n_lines s
        → Kept lib config n_lines (record s { handle = stop_workflow lib s.handle })
    unfolding BufferQueue.enqueue_empty
    Kept-stop s k = elim (Bool-cases s.handle.is_stopped) [
      | inl e ↦ subst Goal (sym (stop_workflow-again lib s.handle e)) k
      | inr e ↦ subst Goal (sym (stop_workflow-first lib s.handle e)) (
        omega (
          arith,
          k,
          ap (λ (b : Bool). if b then n_lines else 0) e,
          enqueue_empty-total lib s.handle.buffer_queue s.handle.n_lines 1 one refl,
        ),
        k.1,
      )
    ]
      where
        Goal : AnalysisHandle lib → Type 0
        Goal h = Kept lib config n_lines (record s { handle = h })

    Kept-Step :
        (s t : System lib) → Step lib s t → Kept lib config n_lines s → Kept lib config n_lines t
    Kept-Step s _ (receive datagram listening fits) k =
        Kept-receive lib config n_lines s datagram listening k
    Kept-Step s _ (restock read_size e) k = Kept-restock lib config n_lines s read_size e k
    Kept-Step s _ (return_buffer line raw_data e) k = Kept-return_buffer s line raw_data e k
    Kept-Step s _ (take_buffer line old raw_data q e taken) k =
        Kept-take_buffer s line old raw_data q e taken k
    Kept-Step s _ (finish_line line raw_data e) k =
        (omega (arith, k, held-set s.lines line (analysing raw_data) (idle raw_data) e) ∙ k.0, k.1)
    Kept-Step s _ (stop) k = Kept-stop s k

    Reach-Kept : {s : System lib} → Reach lib config n_lines s → Kept lib config n_lines s
    Reach-Kept (here) = Kept-started lib config n_lines
    Reach-Kept (next r step) = Kept-Step _ _ step (Reach-Kept r)

  -- In every state that the program reaches, whatever the library answers: the buffers in the two
  -- queues, those that the lines and the socket hold, and those that were given up because the trash
  -- queue was full are together the ones that were reserved, one for each line and one for the
  -- socket, the ones made because the trash queue was empty, and the signals to stop. No more were
  -- reserved than the configuration says.
  pub buffers_balance :
      (config : Config) (n_lines : ℕ) (s : System lib)
      → Reach lib config n_lines s
      → (in_queues lib s
            + total held s.lines
            + socket_held s.asking
            + s.handle.buffer_queue.n_trash_recycle_full_failures
          ≡ reserved lib config
            + n_lines
            + 1
            + s.handle.buffer_queue.n_trash_recycle_empty_failures
            + (if s.handle.is_stopped then n_lines else 0))
        × (reserved lib config ≤ config.reserve_size)
  unfolding BufferQueue.create
  buffers_balance config n_lines s r = (
    (Reach-Kept config n_lines r).0,
    omega (
      arith,
      reserve-le lib config.reserve_size config.buffer_size (lib.create config.queue_capacity),
      ap (total one) (lib.create-contents config.queue_capacity),
    ),
  )

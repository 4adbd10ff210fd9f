-- ===== src/Workflow/Pipeline/Lines.antt =====
-- The steps of the pipeline lines of backend/srs/workflow/TaskDiagram.cpp and the stop of
-- backend/srs/workflow/AnalysisHandle.cpp keep the accounts of the datagrams.
use srs_control.Base.{
  ℕ, ◌+◌, ◌*◌, ◌≡◌, refl, sym, subst, ap, ◌∙◌, Bool, true, false, List, some, arith, if◌then◌else◌,
  total, total-append, total-replicate, replicate, Bool-cases, inl, inr,
}
use srs_control.Data.BufferQueue.{BufferQueue, Config, enqueue_empty, wait_valid, give_back}
use srs_control.Data.ConcurrentQueue.{ConcurrentQueue}
use srs_control.Data.LargeBuffer.{LargeBuffer, empty_buffer, is_empty, valid_data}
use srs_control.Workflow.AnalysisHandle.{AnalysisHandle, stop_workflow}
use srs_control.Workflow.Pipeline.Accounts.{Accounts, carried, carried_bytes, signal, queued}
use srs_control.Workflow.Pipeline.Queues.{
  total-Taken, give_back-accepted, give_back-refused, wait_valid-some,
}
use srs_control.Workflow.Pipeline.{
  System, Line, analysing, with_queue, after_give_back, after_accept,
}
use srs_control.Workflow.TaskDiagram.{accept}

pub accept-signal :
    (bytes : ℕ) (raw_data : LargeBuffer)
    → is_empty raw_data ≡ true
    → accept bytes raw_data ≡ (false, bytes)
unfolding accept
accept-signal bytes raw_data e = rw (e, accept) refl

pub accept-frame :
    (bytes : ℕ) (raw_data : LargeBuffer)
    → is_empty raw_data ≡ false
    → accept bytes raw_data ≡ (true, bytes + raw_data.size_)
unfolding accept
accept-frame bytes raw_data e = rw (e, accept) refl

module _ (lib : ConcurrentQueue) where
  pub stop_workflow-again : (h : AnalysisHandle lib) → h.is_stopped ≡ true → stop_workflow lib h ≡ h
  unfolding stop_workflow
  stop_workflow-again h e =
      ap
        (λ (b : Bool). if b then h else record h {
          is_stopped = true;
          buffer_queue = enqueue_empty lib h.buffer_queue h.n_lines;
        })
        e

  pub stop_workflow-first :
      (h : AnalysisHandle lib)
      → h.is_stopped ≡ false
      → stop_workflow lib h
        ≡ record h { is_stopped = true; buffer_queue = enqueue_empty lib h.buffer_queue h.n_lines }
  unfolding stop_workflow
  stop_workflow-first h e =
      ap
        (λ (b : Bool). if b then h else record h {
          is_stopped = true;
          buffer_queue = enqueue_empty lib h.buffer_queue h.n_lines;
        })
        e

  pub enqueue_empty-total :
      (q : BufferQueue lib) (n k : ℕ) (w : LargeBuffer → ℕ)
      → w empty_buffer ≡ k
      → total w (lib.contents (enqueue_empty lib q n).valid_buffer_queue)
        ≡ total w (lib.contents q.valid_buffer_queue) + n * k
  unfolding enqueue_empty
  enqueue_empty-total q n k w e =
      ap (total w) (lib.enqueue_bulk-contents q.valid_buffer_queue (replicate n empty_buffer))
      ∙ total-append w (lib.contents q.valid_buffer_queue) (replicate n empty_buffer)
      ∙ ap (λ (t : ℕ). total w (lib.contents q.valid_buffer_queue) + t)
          (total-replicate w n empty_buffer ∙ ap (λ (t : ℕ). n * t) e)

module _ (lib : ConcurrentQueue) (f : List ℕ → ℕ) (config : Config) (n_lines : ℕ) where
  -- A step that leaves the queue of valid buffers alone.
  pub Accounts-with_queue :
      (s : System lib) (line : ℕ) (phase : Line) (q : BufferQueue lib)
      → q.valid_buffer_queue ≡ s.handle.buffer_queue.valid_buffer_queue
      → Accounts lib f config n_lines s
      → Accounts lib f config n_lines (with_queue lib s line phase q)
  Accounts-with_queue s line phase q same a =
      let same_total : (w : LargeBuffer → ℕ)
          → total w (lib.contents q.valid_buffer_queue) ≡ total w (queued lib s) =
        λ w. ap (λ v. total w (lib.contents v)) same in
      record {
        frames = omega (arith, a.frames, same_total (carried f));
        read_bytes = a.read_bytes;
        drop_bytes = a.drop_bytes;
        frame_counts = a.frame_counts;
        bytes = omega (arith, a.bytes, same_total carried_bytes);
        signals = omega (arith, same_total signal) ∙ a.signals;
        same_lines = a.same_lines;
        same_size = a.same_size;
        ready = a.ready;
      }

  pub Accounts-give_back :
      (s : System lib) (line : ℕ) (raw_data : LargeBuffer)
      → Accounts lib f config n_lines s
      → Accounts lib f config n_lines
          (after_give_back lib s line (give_back lib s.handle.buffer_queue raw_data))
  Accounts-give_back s line raw_data a =
      go (lib.try_enqueue s.handle.buffer_queue.trash_buffer_queue raw_data) refl
    where
      Goal : LargeBuffer × BufferQueue lib → Type 0
      Goal r = Accounts lib f config n_lines (after_give_back lib s line r)

      go :
          (r : Bool × lib.Queue)
          → lib.try_enqueue s.handle.buffer_queue.trash_buffer_queue raw_data ≡ r
          → Accounts lib f config n_lines
              (after_give_back lib s line (give_back lib s.handle.buffer_queue raw_data))
      go (true, trash) e =
          subst Goal (sym (give_back-accepted lib s.handle.buffer_queue raw_data trash e))
            (Accounts-with_queue s line _ _ refl a)
      go (false, trash) e =
          subst Goal (sym (give_back-refused lib s.handle.buffer_queue raw_data trash e))
            (Accounts-with_queue s line _ _ refl a)

  -- A buffer comes out of the queue, and is a frame or a signal to stop.
  Accounts-taken :
      (s : System lib) (line : ℕ) (phase : Line) (raw_data : LargeBuffer) (valid : lib.Queue)
      → ((w : LargeBuffer → ℕ) → total w (queued lib s) ≡ w raw_data + total w (lib.contents valid))
      → Accounts lib f config n_lines s
      → Accounts lib f config n_lines (
          after_accept lib
            (with_queue lib s line phase
              (record s.handle.buffer_queue { valid_buffer_queue = valid }))
            raw_data
            (accept s.total_read_data_bytes raw_data))
  Accounts-taken s line phase raw_data valid taken a = elim (Bool-cases (is_empty raw_data)) [
    | inl e ↦
        let no_bytes : carried_bytes raw_data ≡ 0 = rw e refl in
        let no_frame : carried f raw_data ≡ 0 = rw e refl in
        let one : signal raw_data ≡ 1 = rw e refl in
        subst Goal (sym (accept-signal s.total_read_data_bytes raw_data e)) (record {
          frames = omega (arith, a.frames, taken (carried f), no_frame);
          read_bytes = a.read_bytes;
          drop_bytes = a.drop_bytes;
          frame_counts = a.frame_counts;
          bytes = omega (arith, a.bytes, taken carried_bytes, no_bytes);
          signals = omega (arith, taken signal, one) ∙ a.signals;
          same_lines = a.same_lines;
          same_size = a.same_size;
          ready = a.ready;
        })
    | inr e ↦
        let its_bytes : carried_bytes raw_data ≡ raw_data.size_ = rw e refl in
        let its_frame : carried f raw_data ≡ f (valid_data raw_data) = rw e refl in
        let no_signal : signal raw_data ≡ 0 = rw e refl in
        subst Goal (sym (accept-frame s.total_read_data_bytes raw_data e)) (record {
          frames = omega (arith, a.frames, taken (carried f), its_frame);
          read_bytes = a.read_bytes;
          drop_bytes = a.drop_bytes;
          frame_counts = a.frame_counts;
          bytes = omega (arith, a.bytes, taken carried_bytes, its_bytes);
          signals = omega (arith, taken signal, no_signal) ∙ a.signals;
          same_lines = a.same_lines;
          same_size = a.same_size;
          ready = a.ready;
        })
  ]
    where
      Goal : Bool × ℕ → Type 0
      Goal r = Accounts lib f config n_lines (
          after_accept lib
            (with_queue lib s line phase
              (record s.handle.buffer_queue { valid_buffer_queue = valid }))
            raw_data r)

  pub Accounts-take_buffer :
      (s : System lib) (line : ℕ) (raw_data : LargeBuffer) (q : BufferQueue lib)
      → wait_valid lib s.handle.buffer_queue ≡ some (raw_data, q)
      → Accounts lib f config n_lines s
      → Accounts lib f config n_lines (
          after_accept lib
            (with_queue lib s line (analysing raw_data) q)
            raw_data
            (accept s.total_read_data_bytes raw_data))
  Accounts-take_buffer s line raw_data q e a =
      let (valid, d, same) = wait_valid-some lib s.handle.buffer_queue raw_data q e in
      subst Goal (sym same) (
        Accounts-taken s line (analysing raw_data) raw_data valid
          (λ w.
            total-Taken w
              (lib.try_dequeue_takes s.handle.buffer_queue.valid_buffer_queue valid raw_data d))
          a)
    where
      Goal : BufferQueue lib → Type 0
      Goal q = Accounts lib f config n_lines (
          after_accept lib (with_queue lib s line (analysing raw_data) q) raw_data
            (accept s.total_read_data_bytes raw_data))

  -- The signals to stop are added once.
  pub Accounts-stop :
      (s : System lib)
      → Accounts lib f config n_lines s
      → Accounts lib f config n_lines (record s { handle = stop_workflow lib s.handle })
  unfolding is_empty
  Accounts-stop s a = elim (Bool-cases s.handle.is_stopped) [
    | inl e ↦ subst Goal (sym (stop_workflow-again lib s.handle e)) a
    | inr e ↦ subst Goal (sym (stop_workflow-first lib s.handle e)) (record {
      frames = omega (
        arith,
        a.frames,
        enqueue_empty-total lib s.handle.buffer_queue s.handle.n_lines 0 (carried f) refl,
      );
      read_bytes = a.read_bytes;
      drop_bytes = a.drop_bytes;
      frame_counts = a.frame_counts;
      bytes = omega (
        arith,
        a.bytes,
        enqueue_empty-total lib s.handle.buffer_queue s.handle.n_lines 0 carried_bytes refl,
      );
      signals =
          let none_yet : total signal (queued lib s) + s.told_to_stop ≡ 0 =
            a.signals ∙ ap (λ (b : Bool). if b then n_lines else 0) e in
          omega (
            arith,
            none_yet,
            a.same_lines,
            enqueue_empty-total lib s.handle.buffer_queue s.handle.n_lines 1 signal refl,
          );
      same_lines = a.same_lines;
      same_size = a.same_size;
      ready = a.ready;
    })
  ]
    where
      Goal : AnalysisHandle lib → Type 0
      Goal h = Accounts lib f config n_lines (record s { handle = h })

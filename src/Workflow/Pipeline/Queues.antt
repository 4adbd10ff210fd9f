-- ===== src/Workflow/Pipeline/Queues.antt =====
-- The outcomes of the operations of backend/srs/data/BufferQueue.cpp, by what the library answers,
-- and what they do to a weight of the buffers in the two queues.
use mathlib.Core.Option.{some-injective, none-ne-some}
use srs_control.Base.{
  ℕ, ◌+◌, ◌≡◌, refl, Bool, true, false, List, Option, none, some, arith, total, subst, ap,
  if◌then◌else◌, sym, ◌∙◌,
}
use srs_control.Data.BufferQueue.{
  BufferQueue, push, pushed, refill, give_back, given_back, took, wait_valid,
}
use srs_control.Data.ConcurrentQueue.{ConcurrentQueue, Taken, here, there}
use srs_control.Data.LargeBuffer.{LargeBuffer, moved_from, resize}

pub total-Taken {ℓ} :
    {A : Type ℓ} (w : A → ℕ) {x : A} {xs ys : List A}
    → Taken x xs ys
    → total w xs ≡ w x + total w ys
total-Taken w (here) = refl
total-Taken w (there t) = omega (arith, total-Taken w t)

module _ (lib : ConcurrentQueue) (b : LargeBuffer) where
  -- A queue with one more buffer, or as before.
  pub try_enqueue-total :
      (w : LargeBuffer → ℕ) (old new : lib.Queue) (accepted : Bool)
      → lib.try_enqueue old b ≡ (accepted, new)
      → total w (lib.contents new) ≡ (if accepted then w b else 0) + total w (lib.contents old)
  try_enqueue-total w old new true e = total-Taken w (
      subst (λ (r : Bool × lib.Queue). Taken b (lib.contents r.1) (lib.contents old)) e
        (lib.try_enqueue_accepts old b (ap (λ (r : Bool × lib.Queue). r.0) e)))
  try_enqueue-total w old new false e =
      let same = lib.try_enqueue_refuses old b (ap (λ (r : Bool × lib.Queue). r.0) e) in
      omega (arith, ap (λ (r : Bool × lib.Queue). total w (lib.contents r.1)) e, ap (total w) same)

module _ (lib : ConcurrentQueue) (q : BufferQueue lib) (b : LargeBuffer) where
  pub push-accepted :
      (valid : lib.Queue)
      → lib.try_enqueue q.valid_buffer_queue b ≡ (true, valid)
      → push lib q b ≡ (true, moved_from b, record q { valid_buffer_queue = valid })
  unfolding push pushed
  push-accepted valid e = ap (pushed lib q b) e

  pub push-refused :
      (valid : lib.Queue)
      → lib.try_enqueue q.valid_buffer_queue b ≡ (false, valid)
      → push lib q b ≡ (
        false,
        b,
        record q {
          valid_buffer_queue = valid;
          n_valid_buffer_full_failures = q.n_valid_buffer_full_failures + 1;
        },
      )
  unfolding push pushed
  push-refused valid e = ap (pushed lib q b) e

  pub give_back-accepted :
      (trash : lib.Queue)
      → lib.try_enqueue q.trash_buffer_queue b ≡ (true, trash)
      → give_back lib q b ≡ (moved_from b, record q { trash_buffer_queue = trash })
  unfolding give_back given_back
  give_back-accepted trash e = ap (given_back lib q b) e

  pub give_back-refused :
      (trash : lib.Queue)
      → lib.try_enqueue q.trash_buffer_queue b ≡ (false, trash)
      → give_back lib q b ≡ (
        b,
        record q {
          trash_buffer_queue = trash;
          n_trash_recycle_full_failures = q.n_trash_recycle_full_failures + 1;
        },
      )
  unfolding give_back given_back
  give_back-refused trash e = ap (given_back lib q b) e

  pub refill-recycled :
      (recycled : LargeBuffer) (trash : lib.Queue)
      → lib.try_dequeue q.trash_buffer_queue ≡ some (recycled, trash)
      → refill lib q b ≡ (recycled, record q { trash_buffer_queue = trash })
  unfolding refill
  refill-recycled recycled trash e = rw (e, refill) refl

  pub refill-new :
      lib.try_dequeue q.trash_buffer_queue ≡ none
      → refill lib q b ≡ (
        resize b q.config.buffer_size,
        record q { n_trash_recycle_empty_failures = q.n_trash_recycle_empty_failures + 1 },
      )
  unfolding refill
  refill-new e = rw (e, refill) refl

  -- What `wait_valid` takes comes from the queue, and the rest stays as it is.
  pub wait_valid-some :
      (q' : BufferQueue lib)
      → wait_valid lib q ≡ some (b, q')
      → (valid : lib.Queue) × (lib.try_dequeue q.valid_buffer_queue ≡ some (b, valid))
        × (q' ≡ record q { valid_buffer_queue = valid })
  unfolding wait_valid took
  wait_valid-some q' e = go (lib.try_dequeue q.valid_buffer_queue) refl e
    where
      go :
          (r : Option (LargeBuffer × lib.Queue))
          → lib.try_dequeue q.valid_buffer_queue ≡ r
          → took lib q r ≡ some (b, q')
          → (valid : lib.Queue) × (lib.try_dequeue q.valid_buffer_queue ≡ some (b, valid))
            × (q' ≡ record q { valid_buffer_queue = valid })
      go none d e = absurd (none-ne-some _ e)
      go (some (element, valid)) d e =
          let same = some-injective _ _ e in
          (
            valid,
            d
                ∙ ap (λ (x : LargeBuffer). some (x, valid))
                    (ap (λ (r : LargeBuffer × BufferQueue lib). r.0) same),
            sym (ap (λ (r : LargeBuffer × BufferQueue lib). r.1) same),
          )

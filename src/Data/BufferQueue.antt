-- ===== src/Data/BufferQueue.antt =====
-- backend/srs/data/BufferQueue.cpp and .hpp: the queue of buffers to be analysed, the queue of those
-- that can be filled again, and the counters of the failures. `enqueue` and `dequeue` consist of
-- two operations of the library each, between which other threads run; `push`, `refill`,
-- `give_back` and `wait_valid` are these halves. The tokens only tell the library who asks.
use srs_control.Base.{ℕ, zero, suc, ◌+◌, Bool, true, false, Option, none, some, replicate}
use srs_control.Data.ConcurrentQueue.{ConcurrentQueue}
use srs_control.Data.LargeBuffer.{LargeBuffer, empty_buffer, allocate, resize, moved_from}

pub record Config : Type 0 where
  pub buffer_size : ℕ
  pub reserve_size : ℕ
  pub queue_capacity : ℕ

pub record BufferQueue (lib : ConcurrentQueue) : Type 0 where
  pub config : Config
  pub n_trash_recycle_empty_failures : ℕ
  pub n_trash_recycle_full_failures : ℕ
  pub n_valid_buffer_full_failures : ℕ
  pub valid_buffer_queue : lib.Queue
  pub trash_buffer_queue : lib.Queue

module _ (lib : ConcurrentQueue) where
  -- The loop of the constructor, which ends at the first refusal.
  unfoldable pub reserve : (n buffer_size : ℕ) → lib.Queue → lib.Queue
  reserve zero buffer_size trash = trash
  reserve (suc n) buffer_size trash =
      let (accepted, trash) = lib.try_enqueue trash (allocate buffer_size) in
      let rest = reserve n buffer_size trash in elim accepted [ true ↦ rest | false ↦ trash ]

  unfoldable pub create : Config → BufferQueue lib
  create config = record {
    config = config;
    n_trash_recycle_empty_failures = 0;
    n_trash_recycle_full_failures = 0;
    n_valid_buffer_full_failures = 0;
    valid_buffer_queue = lib.create config.queue_capacity;
    trash_buffer_queue =
        reserve config.reserve_size config.buffer_size (lib.create config.queue_capacity);
  }

  unfoldable pub enqueue_empty : BufferQueue lib → (bulk_size : ℕ) → BufferQueue lib
  enqueue_empty q bulk_size = record q {
    valid_buffer_queue = lib.enqueue_bulk q.valid_buffer_queue (replicate bulk_size empty_buffer);
  }

  unfoldable pub pushed :
      BufferQueue lib → LargeBuffer → Bool × lib.Queue → Bool × LargeBuffer × BufferQueue lib
  pushed q element (true, valid) =
      (true, moved_from element, record q { valid_buffer_queue = valid })
  pushed q element (false, valid) = (
    false,
    element,
    record q {
      valid_buffer_queue = valid;
      n_valid_buffer_full_failures = q.n_valid_buffer_full_failures + 1;
    },
  )

  -- The first half of `enqueue`, with the element that it leaves.
  unfoldable pub push : BufferQueue lib → LargeBuffer → Bool × LargeBuffer × BufferQueue lib
  push q element = pushed q element (lib.try_enqueue q.valid_buffer_queue element)

  -- The second half.
  unfoldable pub refill : BufferQueue lib → LargeBuffer → LargeBuffer × BufferQueue lib
  refill q element = elim (lib.try_dequeue q.trash_buffer_queue) [
    | some (recycled, trash) ↦ (recycled, record q { trash_buffer_queue = trash })
    | none ↦ (
      resize element q.config.buffer_size,
      record q { n_trash_recycle_empty_failures = q.n_trash_recycle_empty_failures + 1 },
    )
  ]

  refill_if : Bool × LargeBuffer × BufferQueue lib → Bool × LargeBuffer × BufferQueue lib
  refill_if (false, element, q) = (false, element, q)
  refill_if (true, element, q) = let (element, q) = refill q element in (true, element, q)

  unfoldable pub enqueue : BufferQueue lib → LargeBuffer → Bool × LargeBuffer × BufferQueue lib
  unfolding refill_if
  enqueue q element = refill_if (push q element)

  unfoldable pub given_back :
      BufferQueue lib → LargeBuffer → Bool × lib.Queue → LargeBuffer × BufferQueue lib
  given_back q element (true, trash) = (moved_from element, record q { trash_buffer_queue = trash })
  given_back q element (false, trash) = (
    element,
    record q {
      trash_buffer_queue = trash;
      n_trash_recycle_full_failures = q.n_trash_recycle_full_failures + 1;
    },
  )

  -- The first half of `dequeue`.
  unfoldable pub give_back : BufferQueue lib → LargeBuffer → LargeBuffer × BufferQueue lib
  give_back q element = given_back q element (lib.try_enqueue q.trash_buffer_queue element)

  unfoldable pub took :
      BufferQueue lib → Option (LargeBuffer × lib.Queue) → Option (LargeBuffer × BufferQueue lib)
  took q none = none
  took q (some (element, valid)) = some (element, record q { valid_buffer_queue = valid })

  -- The second half: nothing while the call waits.
  unfoldable pub wait_valid : BufferQueue lib → Option (LargeBuffer × BufferQueue lib)
  wait_valid q = took q (lib.try_dequeue q.valid_buffer_queue)

  unfoldable pub dequeue : BufferQueue lib → LargeBuffer → Option (LargeBuffer × BufferQueue lib)
  dequeue q element = wait_valid (give_back q element).1

-- ===== src/BoundedQueue.antt =====
-- util/bounded_blocking_queue.hpp: the class `BoundedBlockingQueue<T>`, one pass of each method under
-- its lock. The array has `max_elems` places, the indices go round at `max_elems + 1`.
pub mod Laws
mod Tests
use code_c.Base.{
  ℕ, ◌+◌, ◌%◌, Bool, true, false, Option, none, some, List, [], ◌∷◌, ltb, ◌==◌, if◌then◌else◌,
  length, set, get_elem?, replicate,
}
use code_c.BlockingQueue.{Pass, returned, waits, fault}

pub record Bounded (A : Type 0) : Type 0 where
  pub slots : List A  -- `data_`
  pub capacity : ℕ  -- `capacity_`
  pub in_pos : ℕ  -- `in_`
  pub out_pos : ℕ  -- `out_`
  pub closed : Bool  -- `closed_`

module _ {A : Type 0} where
  -- The constructor; `blank` is what `new T[max_elems]` fills the array with.
  pub make : A → ℕ → Bounded A
  make blank max_elems = record {
    slots = replicate max_elems blank;
    capacity = max_elems + 1;
    in_pos = 0;
    out_pos = 0;
    closed = false;
  }

  pub full : Bounded A → Bool
  full q = (q.in_pos + 1) % q.capacity == q.out_pos

  pub empty : Bounded A → Bool
  empty q = q.in_pos == q.out_pos

  -- `data_[in_] = v; in_ = (in_ + 1) % capacity_`
  pub store : Bounded A → A → Pass Bool × Bounded A
  store q v =
      if ltb q.in_pos (length q.slots)
      then (
        returned true,
        record q { slots = set q.slots q.in_pos v; in_pos = (q.in_pos + 1) % q.capacity },
      )
      else (fault, q)

  -- `wait` lets a pass on if the queue is closed or not full.
  pub push_back : Bounded A → A → Pass Bool × Bounded A
  unfolding full store
  push_back q v = if q.closed then (returned false, q) else if full q then (waits, q) else store q v

  -- `v = std::move(data_[out_]); out_ = (out_ + 1) % capacity_`, for the element read.
  abbrev pub fetch : Bounded A → Option A → Pass (Option A) × Bounded A
  fetch q none = (fault, q)
  fetch q (some v) = (returned (some v), record q { out_pos = (q.out_pos + 1) % q.capacity })

  -- `returned none` is `false`; a `true` comes with the element.
  pub pop_front : Bounded A → Pass (Option A) × Bounded A
  unfolding empty
  pop_front q =
      if q.closed
      then (returned none, q)
      else if empty q
      then (waits, q)
      else fetch q (get_elem? q.slots q.out_pos)

  -- The assignment in `close`.
  pub close : Bounded A → Bounded A
  close q = record q { closed = true }

  -- A client that pushes a list.
  pub push_all : Bounded A → List A → Bounded A
  push_all q [] = q
  push_all q (v ∷ vs) = push_all (push_back q v).1 vs

-- ===== src/BlockingQueue.antt =====
-- util/bounded_blocking_queue.h: the ring of `queue_t` and the critical sections of its functions.
-- What waiting, signalling and `queue_close` do across threads is in `System`.
pub mod Ring
pub mod Passes
pub mod Outcomes
pub mod Refine
pub mod System
pub mod Wakeups
pub mod Safety
mod Tests
pub mod Fifo
use mathlib.Core.Option
use code_c.Base.{
  ℕ, ◌+◌, ◌*◌, ◌%◌, ◌^◌, Bool, true, false, Option, none, List, ltb, leb, ◌==◌, if◌then◌else◌,
  length, set, get_or,
}

-- `queue_t` without its mutex and condition variables. A pointer is a number.
pub record Queue : Type 0 where
  pub size : ℕ
  pub out_pos : ℕ  -- `out`
  pub in_pos : ℕ  -- `in`
  pub closed : Bool
  pub slots : List ℕ  -- `data`

abbrev pub null : ℕ
null = 0

abbrev pub size_mod : ℕ
size_mod = 2 ^ 64

-- The assignments of `queue_init`, with `q->size` and the block from `malloc`.
abbrev pub fresh : ℕ → List ℕ → Queue
fresh slot_count block = record {
  size = slot_count;
  out_pos = 0;
  in_pos = 0;
  closed = false;
  slots = block;
}

-- `queue_init`: `none` is -1. `malloc` is given the bytes; `none` is its NULL.
pub init : Bool → ℕ → (ℕ → Option (List ℕ)) → Option Queue
init q_is_null size malloc =
    if q_is_null
    then none
    else if leb size 0
    then none
    else Option.map (fresh ((size + 1) % size_mod))
        (malloc (8 * ((size + 1) % size_mod) % size_mod))

-- How one pass of the `while (1)` under the lock ends: with a return value, in the wait, or with an
-- access outside `data`.
pub data Pass (A : Type 0) : Type 0 where
  returned : A → Pass A
  waits : Pass A
  fault : Pass A

-- The return value of `queue_put`: 0 and -1.
pub data Status : Type 0 where
  stored refused : Status

-- `q->data[q->in] = item; q->in = (q->in + 1) % q->size; return 0`
pub store : Queue → ℕ → Pass Status × Queue
store q item =
    if ltb q.in_pos (length q.slots)
    then (
      returned stored,
      record q { slots = set q.slots q.in_pos item; in_pos = (q.in_pos + 1) % size_mod % q.size },
    )
    else (fault, q)

-- One pass of `queue_put`.
pub put : Queue → ℕ → Pass Status × Queue
unfolding store
put q item =
    if q.closed
    then (returned refused, q)
    else if (q.in_pos + 1) % size_mod % q.size == q.out_pos
    then (waits, q)
    else store q item

-- `ret = q->data[q->out]; q->out = (q->out + 1) % q->size; return ret`
pub fetch : Queue → Pass ℕ × Queue
fetch q =
    if ltb q.out_pos (length q.slots)
    then (
      returned (get_or q.slots q.out_pos 0),
      record q { out_pos = (q.out_pos + 1) % size_mod % q.size },
    )
    else (fault, q)

-- One pass of `queue_get`.
pub get : Queue → Pass ℕ × Queue
unfolding fetch
get q =
    if q.closed then (returned null, q) else if q.in_pos == q.out_pos then (waits, q) else fetch q

-- The assignment of `queue_close`; its broadcasts are in `System`.
pub close : Queue → Queue
close q = record q { closed = true }

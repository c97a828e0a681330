-- ===== src/BlockingQueue/Tests.antt =====
-- `queue_t` for one item: runs, and the theorems at states that threads reach.
use code_c.Base.{
  ℕ, ◌+◌, ◌/◌, ◌*◌, ◌≤◌, ◌<◌, ◌≡◌, ◌≢◌, refl, false, Option, some, List, [], ◌∷◌, ◌++◌, arith,
  length, replicate, length-replicate,
}
use code_c.BlockingQueue.{Queue, init, put, get, close, waits}
use code_c.BlockingQueue.Ring.{IsValid, contents}
use code_c.BlockingQueue.Fifo
use code_c.BlockingQueue.Fifo.{Fifo}
use code_c.BlockingQueue.Refine.{view, put_refines, get_refines}
use code_c.BlockingQueue.System.{
  System, wakes, call_put, call_get, put_stores, put_parks, get_takes, get_parks, close_sets,
  broadcast_not_empty, broadcast_not_full, boot, Reach, start, later,
}
use code_c.BlockingQueue.Safety.{stored_in_order, no_lost_get, no_lost_put, no_deadlock}

-- A `malloc` that never fails.
abbrev blocks : ℕ → Option (List ℕ)
blocks bytes = some (replicate (bytes / 8 + 1) 0)

blocks_lem : (bytes : ℕ) (block : List ℕ) → blocks bytes ≡ some block → bytes ≤ 8 * length block
blocks_lem bytes block e = ground (arith, length-replicate {A = ℕ} (bytes / 8 + 1) 0)

abbrev one : Queue
one = record { size = 2; out_pos = 0; in_pos = 0; closed = false; slots = 0 ∷ 0 ∷ 0 ∷ [] }

one_made : init false 1 blocks ≡ some one
unfolding init
one_made = refl

one-IsValid : IsValid one
one-IsValid = omega arith

-- One item stored at slot 1, so that `in` is back at slot 0.
abbrev wrapped : Queue
wrapped = record one { out_pos = 1; in_pos = 0; slots = 3 ∷ 7 ∷ 0 ∷ [] }

wrapped-IsValid : IsValid wrapped
wrapped-IsValid = omega arith

put_full : put wrapped 9 ≡ (waits, wrapped)
unfolding put
put_full = refl

put_refines_example : let (r, q) = put one 7 in (r, view q) ≡ Fifo.put 1 (view one) 7
put_refines_example = put_refines 7 one-IsValid

get_refines_example : let (r, q) = get wrapped in (r, view q) ≡ Fifo.get (view wrapped)
get_refines_example = get_refines wrapped-IsValid

-- Two threads asleep in `queue_get`.
abbrev two_asleep : System
two_asleep = record (boot one) { parked_get = 2 }

two_asleep-Reach : Reach one two_asleep
unfolding get
two_asleep-Reach =
    later (later (later (later start call_get) (get_parks (omega arith) refl)) call_get)
      (get_parks (omega arith) refl)

-- A store wakes one of them.
abbrev one_woken : System
one_woken = record two_asleep {
  queue = record one { in_pos = 1; slots = 7 ∷ 0 ∷ 0 ∷ [] };
  getting = 1;
  parked_get = 1;
  accepted = 7 ∷ [];
}

one_woken-Reach : Reach one one_woken
unfolding put
one_woken-Reach = later (later two_asleep-Reach (call_put 7)) (put_stores [] 7 [] refl refl)

stored_in_order_example :
    (7 ∷ [] ≡ [] ++ contents one_woken.queue) × (length (contents one_woken.queue) ≤ 1)
stored_in_order_example = stored_in_order blocks_lem (omega arith) one_made one_woken-Reach

no_lost_get_example : 0 < one_woken.getting
no_lost_get_example =
    no_lost_get blocks_lem (omega arith) one_made one_woken-Reach refl (λ e. cc) (omega arith)

-- The ring is full, and two threads sleep in `queue_put`.
abbrev full : System
full = record (boot one) {
  queue = record one { in_pos = 1; slots = 7 ∷ 0 ∷ 0 ∷ [] };
  parked_put = 9 ∷ 8 ∷ [];
  accepted = 7 ∷ [];
}

full-Reach : Reach one full
unfolding put
full-Reach =
    later
      (later
        (later
          (later (later (later start (call_put 7)) (put_stores [] 7 [] refl refl)) (call_put 8))
          (put_parks [] 8 [] refl refl))
        (call_put 9))
      (put_parks [] 9 [] refl refl)

no_deadlock_example : full.parked_get ≡ 0
no_deadlock_example =
    no_deadlock blocks_lem (omega arith) one_made full-Reach refl refl refl (λ e. cc)

-- A fetch wakes one of them.
abbrev room : System
room = record full {
  queue = record one { out_pos = 1; in_pos = 1; slots = 7 ∷ 0 ∷ 0 ∷ [] };
  putting = 8 ∷ [];
  parked_put = 9 ∷ [];
  delivered = 7 ∷ [];
}

room-Reach : Reach one room
unfolding get
room-Reach =
    later (later full-Reach call_get)
      (get_takes 7 (omega arith) refl refl (wakes (9 ∷ []) 8 [] refl))

no_lost_put_example : room.putting ≢ []
no_lost_put_example =
    no_lost_put blocks_lem (omega arith) one_made room-Reach refl (omega arith) (λ e. cc)

-- A whole `queue_close` while two threads sleep.
abbrev shut : System
shut = record full { queue = close full.queue; putting = 9 ∷ 8 ∷ []; parked_put = [] }

shut-Reach : Reach one shut
unfolding close
shut-Reach =
    later (later (later full-Reach close_sets) (broadcast_not_empty (omega arith)))
      (broadcast_not_full (omega arith))
